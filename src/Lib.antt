-- ===== src/Lib.antt =====
-- FlareDB is a runner for Apache Beam pipelines. It fuses a pipeline into stages, schedules bundles
-- of elements over them, and tracks event time. This library models the part that decides when a
-- stage may run and when a window fires, and the bytes that describe a firing.
--
-- Parts, and the files that model them:
--
-- Watermark: flaredb/src/engine/watermark.rs. `WatermarkManager` keeps a `StageState` per stage, with
--   the wiring of the PCollections between the stages. Watermark/State has the records and the
--   readiness test of one stage; Watermark/Manager the methods that register stages, take the reports
--   of sources and the holds, and answer questions; Watermark/Bundles the lifecycle of a bundle
--   (ready_stages, start_bundle, complete_bundle and its variants, is_complete,
--   validate_bundle_input_watermark); Watermark/Refresh the propagation of watermarks (refresh,
--   compute_input, compute_output, release_empty_input_holds). Watermark/History puts the methods
--   together: a history registers and sets up stages, then makes any sequence of method calls, which
--   is how the scheduler and the dispatcher use the manager. Watermark/HoldMap and Watermark/Sources
--   state what the holds and the sources mean. The modules below these carry the proofs.
--
-- Trigger: flaredb/src/engine/trigger.rs. Trigger/Syntax has the trigger tree, parsed from the Beam
--   protocol, and the windowing strategy; Trigger/Runner the state tree of one window and the
--   recursion over both (element, should_fire, fire), with the `TriggerRunner` above it;
--   Trigger/Runner/Moderate bounds times and delays so that their sums do not overflow.
--
-- Coders: flaredb/src/coders/primitives.rs. Coders/Varint has the varints of a u64 and of an i64;
--   Coders/Bytes byte strings behind their length (BytesCoder, PickleCoder, LengthPrefixCoder);
--   Coders/Timestamp a timestamp in eight bytes; Coders/Window a window by each window coder;
--   Coders/Pane the pane of a firing, with its coder, and the two functions of trigger.rs that build
--   it; Coders/Windowed the list of windows and the prefix of a windowed value;
--   Coders/Key the binary key under which a window is stored;
--   Coders/Canonical its text key. A buffer is a list of
--   bytes below 256, and decoding returns the rest of it.
--
-- Merge: flaredb/src/engine/window.rs. Merge has the windows of a request (distinct_windows) and the
--   check of an answer (validate_merge_result); Merge/Consume is about the loops of the check;
--   Merge/Batch pairs the answers of a batch with its requests by their nonces, and
--   Merge/Wire has the bytes of both. Merge/Cache is the cache of merges, over any choice of the key
--   to evict.
--
-- Timers: flaredb/src/engine/timer.rs. Timers has the identities and entries with the storage key;
--   Timers/Kv the interface of what the timers use of other code: the `KvStore` trait of
--   flaredb/src/engine/kv.rs, with what SlateDB documents of it (a batch is last write wins, a scan
--   gives the live pairs), and the JSON form of an entry, which reads back; Timers/Store the
--   `TimerStore` over it; Timers/Service the `TimerService`, with its clock and the head of a turn of
--   its firing loop. Timers/Service/Table is the table from identities to timers that the service
--   stands for.
--
-- Scheduler: flaredb/src/engine/scheduler.rs. Scheduler/Graph has the executable graph of
--   flaredb/src/fusion/pipeline.rs and flaredb/src/fusion/stage.rs as far as it is read here;
--   Scheduler/Setup builds a watermark manager and a scheduler from it (from_executable_graph and the
--   required watermarks of flaredb/src/engine/watermark.rs, NodeScheduler::new); Scheduler/State has
--   `NodeScheduler` with its operations, which call the watermark manager and route timers to the
--   stages that own them; Scheduler/Reached ties its states to the histories of Watermark/History;
--   Scheduler/Wave, Scheduler/Waves, Scheduler/Ready and Scheduler/Poll are about `next_nodes`.
--
-- Base has the tests, integers, strings and maps that the parts share.
--
-- How code becomes definitions: a method that takes `&mut self` is a function to the next state; an
-- error of the manager is a constructor of `Error`, and a method that can fail returns a `Result`. A
-- `HashMap` or `BTreeMap` is an association list with one entry per key, in which `put` overwrites; a
-- loop over a `HashMap` goes in the order of the list. A `BTreeSet` is a sorted list without
-- duplicates. A timestamp is an integer that does not wrap: the manager only compares timestamps, and
-- its one addition saturates, as it does here. The parser of triggers adds delays, and a trigger adds
-- its delay to a time: these sums wrap in 64 bits (Base/I64), as in a build without overflow checks,
-- and the theorems about them state the bounds under which no sum overflows, so that they hold in a
-- build with overflow checks too. A window coder subtracts bounds; there the model does not wrap
-- where the source would. Counters (bundles, elements) are natural numbers that do not reach 2 ^ 64; the conversions between u64 and i64 in the
-- coders wrap as in the source. A panic, which is an index out of range in a trigger's state, a read
-- past the end of a buffer or a shift by 64 bits, is `none`.
--
-- Fuel: `refresh` loops until a pass changes nothing. The model gives it one more than the total
-- distance of all watermarks from the maximum timestamp, and every pass but the last shortens that
-- distance. The loop of `next_nodes` over one stage has one turn more than there are bundles in the
-- stage's queue, and each turn takes one. The walk upstream of a gated stage has one more step than there are stages; the graph of
-- a pipeline is acyclic, so no path is longer. A varint has at most ten bytes.
-- The loop over the answers of a batch has as many steps as the output has bytes, and an answer takes
-- more than eight.
-- The chunks of a list of windows have one more step than the buffer has bytes, for each count takes
-- a byte.
--
-- An error of the key-value store or the serializer is the constructor `failed`, and what a store holds
-- after a failure is left open. The sum of the clock's origin and the elapsed time stays below 2 ^ 63.
--
-- Not modelled: log messages, sleeping and waking, opening a database; the reading of
-- FLAREDB_SDF_MAX_IN_FLIGHT, whose answer is a parameter; how a pipeline is fused; the other coders
-- and the parts of the runner outside these files.

pub mod Base
pub mod Coders
pub mod Merge
pub mod Scheduler
pub mod Timers
pub mod Trigger
pub mod Watermark
