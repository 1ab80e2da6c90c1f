-- ===== src/Watermark/State.antt =====
-- The state of flaredb/src/engine/watermark.rs: a source's reports, a stage and the manager.
use flare_db.Base.{
  ℕ, ◌+◌, ◌-◌, ℤ, pos, negsuc, String, Bool, true, false, not, ◌&&◌, ◌||◌, Option, none, some, List,
  [], ◌∷◌, ltb, leb, ◌==◌, if◌then◌else◌, ltb_ℤ, leb_ℤ, eqb_ℤ, min_ℤ,
}

-- A watermark timestamp in milliseconds since the Unix epoch (an i64).
abbrev pub Timestamp : Type 0
Timestamp = ℤ

abbrev pub StageId : Type 0
StageId = String

abbrev pub PCollectionId : Type 0
PCollectionId = String

abbrev pub min_timestamp : Timestamp
min_timestamp = negsuc 9_223_372_036_854_774

abbrev pub max_timestamp : Timestamp
max_timestamp = pos 9_223_372_036_854_775

abbrev pub default_partition : String
default_partition = ""

pub record PartitionWatermark : Type 0 where
  pub watermark : Timestamp
  pub idle : Bool

pub record SourceState : Type 0 where
  pub partitions : List (String × PartitionWatermark)
  pub finished : Bool
  pub auto_finish : Bool

abbrev pub default_source : SourceState
default_source = record { partitions = []; finished = false; auto_finish = true }

-- A derived `Default` of an i64 is 0.
abbrev pub default_partition_watermark : PartitionWatermark
default_partition_watermark = record { watermark = pos 0; idle = false }

-- The minimum over the partitions that are not idle, from a start value.
unfoldable pub min_active : Timestamp → List (String × PartitionWatermark) → Timestamp
min_active w [] = w
min_active w ((_, p) ∷ ps) = min_active (if p.idle then w else min_ℤ w p.watermark) ps

-- The minimum watermark while no partition has reported.
abbrev pub partitions_output : List (String × PartitionWatermark) → Timestamp
partitions_output [] = min_timestamp
partitions_output (p ∷ ps) = min_active max_timestamp (p ∷ ps)

-- `SourceState::output`
unfoldable pub source_output : SourceState → Timestamp
source_output s = if s.finished then max_timestamp else partitions_output s.partitions

pub data StageKind : Type 0 where
  ordinary watermark_gated time_sorted_input_watermark_gated : StageKind

-- `kind == StageKind::WatermarkGated`, and the two other tests on a kind.
abbrev pub is_watermark_gated : StageKind → Bool
is_watermark_gated watermark_gated = true
is_watermark_gated _ = false

abbrev pub is_time_sorted : StageKind → Bool
is_time_sorted time_sorted_input_watermark_gated = true
is_time_sorted _ = false

abbrev pub is_ordinary : StageKind → Bool
is_ordinary ordinary = true
is_ordinary _ = false

-- `BTreeMap<Timestamp, usize>`: the holds with their counts, earliest first.
abbrev pub Holds : Type 0
Holds = List (Timestamp × ℕ)

pub record StageState : Type 0 where
  pub main_inputs : List PCollectionId
  pub side_inputs : List PCollectionId
  pub outputs : List PCollectionId
  pub source : Option SourceState
  pub input : Timestamp
  pub output : Timestamp
  pub watermark_holds : Holds
  pub residual_holds : Holds
  pub unproduced : List PCollectionId
  pub unproduced_side_inputs : List PCollectionId
  pub pending : List PCollectionId
  pub pending_min : Timestamp
  pub in_flight : ℕ
  pub queued : ℕ
  pub max_in_flight : ℕ
  pub completed : Bool
  pub rerun_pending : Bool
  pub kind : StageKind
  pub time_sorted_input_closed : Bool
  pub required_watermark : Timestamp
  pub watermark_at_last_run : Timestamp
  pub pending_empty : List PCollectionId

pub record WatermarkManager : Type 0 where
  pub stage_map : List (StageId × StageState)
  pub producers : List (PCollectionId × StageId)
  pub consumers : List (PCollectionId × List StageId)
  pub side_input_consumers : List (PCollectionId × List StageId)

-- `*entry(timestamp).or_insert(0) += 1`
unfoldable pub hold_add : Timestamp → Holds → Holds
hold_add t [] = (t, 1) ∷ []
hold_add t ((k, n) ∷ m) =
    if eqb_ℤ k t
    then (k, n + 1) ∷ m
    else if ltb_ℤ t k
    then (t, 1) ∷ (k, n) ∷ m
    else (k, n) ∷ hold_add t m

-- Takes one from the count of a timestamp that is held, and drops the entry at 0.
unfoldable pub hold_release : Timestamp → Holds → Holds
hold_release t [] = []
hold_release t ((k, n) ∷ m) =
    if eqb_ℤ k t then (if n - 1 == 0 then m else (k, n - 1) ∷ m) else (k, n) ∷ hold_release t m

-- `clear`, then one `hold_add` for each timestamp.
unfoldable pub hold_all : List Timestamp → Holds → Holds
hold_all [] m = m
hold_all (t ∷ ts) m = hold_all ts (hold_add t m)

-- `keys().next()`
unfoldable pub first_key : Holds → Option Timestamp
first_key [] = none
first_key ((k, n) ∷ m) = some k

abbrev pub min_option : Option Timestamp → Option Timestamp → Option Timestamp
min_option (some timer) (some residual) = some (min_ℤ timer residual)
min_option (some timer) none = some timer
min_option none (some residual) = some residual
min_option none none = none

-- `StageState::min_hold`
unfoldable pub min_hold : StageState → Option Timestamp
unfolding first_key
min_hold s = min_option (first_key s.watermark_holds) (first_key s.residual_holds)

abbrev pub is_empty {ℓ} : {A : Type ℓ} → List A → Bool
is_empty [] = true
is_empty (x ∷ xs) = false

abbrev pub is_none {ℓ} : {A : Type ℓ} → Option A → Bool
is_none none = true
is_none (some x) = false

-- `StageState::is_source`
abbrev pub is_source : StageState → Bool
is_source s = not (is_none s.source)

unfoldable pub has_work : StageState → Bool
has_work s =
    if s.completed
    then s.rerun_pending
      || ltb 0 s.queued
      || not (is_empty s.pending)
      || (is_watermark_gated s.kind && ltb_ℤ s.watermark_at_last_run (min_ℤ s.input s.pending_min))
    else true

unfoldable pub kind_gate : StageState → Bool
kind_gate s = if is_ordinary s.kind then true else leb_ℤ s.required_watermark s.input

-- `StageState::is_ready_without_upstream_barrier`
unfoldable pub is_ready_without_upstream_barrier : StageState → Bool
unfolding has_work kind_gate
is_ready_without_upstream_barrier s =
    if leb s.max_in_flight s.in_flight
      || not (is_empty s.unproduced)
      || not (is_empty s.unproduced_side_inputs)
    then false
    else if not s.completed && ltb 0 s.in_flight && s.queued == 0
    then false
    else if not (has_work s)
    then false
    else kind_gate s
