-- ===== src/Watermark/Bundles.antt =====
-- Readiness, `start_bundle` and `complete_bundle` of flaredb/src/engine/watermark.rs.
pub mod Start
pub mod Quiescence
pub mod Loops
pub mod Validate
pub mod PushWake
use flare_db.Base.{
  ℕ, zero, suc, ◌+◌, ◌-◌, Bool, true, false, not, ◌&&◌, ◌||◌, Option, none, some, List, [], ◌∷◌,
  ◌++◌, ltb, leb, ◌==◌, if◌then◌else◌, length, ltb_ℤ, leb_ℤ, min_ℤ,
}
use flare_db.Base.Text.{set_insert, set_remove, sort, dedup}
use flare_db.Base.Dict.{get, modify}
use flare_db.Watermark.State.{
  Timestamp, StageId, PCollectionId, min_timestamp, max_timestamp, is_ordinary, is_time_sorted,
  is_watermark_gated, StageState, WatermarkManager, min_hold, min_option, is_empty, is_none,
  is_ready_without_upstream_barrier,
}
use flare_db.Watermark.Manager.{
  Error, unknown_stage, maximum_in_flight, first_bundle_in_flight, not_re_armed,
  unproduced_main_inputs, no_bundle_in_flight, watermark_violated, Result, ok, err, consumers_of,
}

-- The conditions on one producer in the chain.
unfoldable pub producer_is_quiescent : StageState → Bool
producer_is_quiescent s =
    s.completed
    && s.in_flight == 0
    && s.queued == 0
    && is_empty s.pending
    && not s.rerun_pending
    && is_empty s.pending_empty
    && is_none (min_hold s)

-- The stage that produces a PCollection, if both are known.
unfoldable pub producer_stage : WatermarkManager → PCollectionId → Option StageState
producer_stage m input = elim (get input m.producers) [
  | none ↦ none
  | some producer ↦ get producer m.stage_map
]

-- `all` over the known producers of the inputs; `upstream` is the recursive call.
unfoldable pub all_quiescent : (StageState → Bool) → WatermarkManager → List PCollectionId → Bool
all_quiescent upstream m [] = true
all_quiescent upstream m (input ∷ inputs) =
    let rest = all_quiescent upstream m inputs in
    elim (producer_stage m input) [
      | none ↦ rest
      | some s ↦ producer_is_quiescent s && upstream s && rest
    ]

abbrev pub all_inputs : StageState → List PCollectionId
all_inputs s = s.main_inputs ++ s.side_inputs

-- The source recurs without a bound; here the fuel is the longest chain that is followed, and a
-- chain that is longer counts as not quiescent.
unfoldable pub upstream_chain_is_quiescent : ℕ → WatermarkManager → StageState → Bool
upstream_chain_is_quiescent zero m s = false
upstream_chain_is_quiescent (suc fuel) m s =
    all_quiescent (upstream_chain_is_quiescent fuel m) m (all_inputs s)

unfoldable pub stage_is_ready : WatermarkManager → StageId → Bool
stage_is_ready m stage = elim (get stage m.stage_map) [
  | none ↦ false
  | some s ↦
      if not (is_ready_without_upstream_barrier s)
      then false
      else if is_ordinary s.kind
      then true
      else upstream_chain_is_quiescent (suc (length m.stage_map)) m s
]

unfoldable pub filter_ready : WatermarkManager → List (StageId × StageState) → List StageId
filter_ready m [] = []
filter_ready m ((id, s) ∷ rest) =
    if stage_is_ready m id then id ∷ filter_ready m rest else filter_ready m rest

unfoldable pub ready_stages : WatermarkManager → List StageId
unfolding filter_ready
ready_stages m = sort (filter_ready m m.stage_map)

-- Why a stage may not start a bundle, in the order of the checks.
unfoldable pub start_refusal : StageId → StageState → Option Error
start_refusal stage s =
    if leb s.max_in_flight s.in_flight
    then some (maximum_in_flight stage)
    else if not s.completed && ltb 0 s.in_flight && s.queued == 0
    then some (first_bundle_in_flight stage)
    else if s.completed
        && not s.rerun_pending
        && s.queued == 0
        && not (is_watermark_gated s.kind && ltb_ℤ s.watermark_at_last_run s.input)
        && is_empty s.pending
    then some (not_re_armed stage)
    else if not (is_empty s.unproduced)
    then some (unproduced_main_inputs stage)
    else none

-- The change that starting a bundle makes; the first of a wave consumes the pending input.
unfoldable pub started : StageState → StageState
started s =
    let first = s.in_flight + 1 == 1 in
    record s {
      in_flight = s.in_flight + 1;
      queued = s.queued - 1;
      rerun_pending = false;
      time_sorted_input_closed =
          if is_time_sorted s.kind && leb_ℤ s.required_watermark s.input
          then true
          else s.time_sorted_input_closed;
      pending = if first then [] else s.pending;
      pending_min = if first then max_timestamp else s.pending_min;
      watermark_at_last_run =
          if first then min_ℤ s.input s.pending_min else s.watermark_at_last_run;
    }

unfoldable pub start_bundle : WatermarkManager → StageId → Result WatermarkManager
unfolding start_refusal
start_bundle m stage = elim (get stage m.stage_map) [
  | none ↦ err (unknown_stage stage)
  | some s ↦ elim (start_refusal stage s) [
    | some e ↦ err e
    | none ↦ ok (record m { stage_map = modify stage started m.stage_map })
  ]
]

-- What the loops of `complete_bundle` carry: the manager and the consumers found ready so far.
pub record Wake : Type 0 where
  pub manager : WatermarkManager
  pub newly_ready : List StageId

abbrev pub min_with : Timestamp → Option Timestamp → Timestamp
min_with t none = t
min_with t (some u) = min_ℤ t u

-- The change that appended main input makes in a consumer.
unfoldable pub wake_main : PCollectionId → Bool → Option Timestamp → StageState → StageState
wake_main pcollection empty propagated_min s =
    let closed = s.time_sorted_input_closed in
    record s {
      unproduced = set_remove pcollection s.unproduced;
      pending = if closed then s.pending else set_insert pcollection s.pending;
      pending_empty =
          if closed
          then s.pending_empty
          else if empty
          then set_insert pcollection s.pending_empty
          else set_remove pcollection s.pending_empty;
      pending_min = if closed then s.pending_min else min_with s.pending_min propagated_min;
    }

-- The change that an appended side input makes in a consumer.
unfoldable pub wake_side : PCollectionId → Bool → StageState → StageState
wake_side pcollection empty s =
    if empty
    then record s { pending_empty = set_insert pcollection s.pending_empty }
    else record s {
      pending_empty = set_remove pcollection s.pending_empty;
      unproduced_side_inputs = set_remove pcollection s.unproduced_side_inputs;
    }

-- One loop over the consumers of a PCollection.
unfoldable pub wake_consumers : (StageState → StageState) → List StageId → Wake → Wake
wake_consumers f [] w = w
wake_consumers f (consumer ∷ rest) w =
    let m = record (w.manager) { stage_map = modify consumer f w.manager.stage_map } in
    wake_consumers f rest (record {
      manager = m;
      newly_ready =
          if stage_is_ready m consumer then w.newly_ready ++ (consumer ∷ []) else w.newly_ready;
    })

-- The loop over the outputs of the stage.
unfoldable pub wake_outputs : Bool → Option Timestamp → List PCollectionId → Wake → Wake
unfolding wake_consumers
wake_outputs empty propagated_min [] w = w
wake_outputs empty propagated_min (pcollection ∷ rest) w =
    let main =
      wake_consumers (wake_main pcollection empty propagated_min)
        (consumers_of (get pcollection w.manager.consumers)) w in
    let side =
      wake_consumers (wake_side pcollection empty)
        (consumers_of (get pcollection main.manager.side_input_consumers)) main in
    wake_outputs empty propagated_min rest side

abbrev pub finish_one : StageState → StageState
finish_one s = record s { in_flight = s.in_flight - 1; completed = true }

abbrev pub is_zero_count : Option ℕ → Bool
is_zero_count none = false
is_zero_count (some n) = n == 0

-- `propagates_empty_input` and `propagated_min`, for the stage before its completion.
abbrev pub propagates_empty_input : StageState → Option Timestamp → Option ℕ → Bool
propagates_empty_input s output_min_ts input_count =
    (is_none output_min_ts && is_zero_count input_count) || not (is_empty s.pending_empty)

abbrev pub propagated_min : StageState → Option Timestamp → Option Timestamp
propagated_min s output_min_ts =
    if not (is_empty s.pending_empty) then some min_timestamp else output_min_ts

-- The manager once the bundle's own stage is marked.
abbrev pub finished : WatermarkManager → StageId → Wake
finished m stage = record {
  manager = record m { stage_map = modify stage finish_one m.stage_map };
  newly_ready = [];
}

unfoldable pub complete_bundle_with_min_and_input :
    WatermarkManager
    → StageId
    → Option Timestamp
    → Option ℕ
    → Result (WatermarkManager × List StageId)
unfolding wake_outputs
complete_bundle_with_min_and_input m stage output_min_ts input_count =
    elim (get stage m.stage_map) [
      | none ↦ err (unknown_stage stage)
      | some s ↦
          if s.in_flight == 0
          then err (no_bundle_in_flight stage)
          else let done =
              wake_outputs (propagates_empty_input s output_min_ts input_count)
                (propagated_min s output_min_ts) s.outputs (finished m stage) in
            ok (done.manager, dedup (sort done.newly_ready))
    ]

unfoldable pub complete_bundle_with_min :
    WatermarkManager → StageId → Option Timestamp → Result (WatermarkManager × List StageId)
unfolding complete_bundle_with_min_and_input
complete_bundle_with_min m stage output_min_ts =
    complete_bundle_with_min_and_input m stage output_min_ts none

unfoldable pub complete_bundle :
    WatermarkManager → StageId → Result (WatermarkManager × List StageId)
unfolding complete_bundle_with_min
complete_bundle m stage = complete_bundle_with_min m stage none

unfoldable pub stage_is_done : StageState → Bool
stage_is_done s =
    s.completed
    && is_empty s.unproduced_side_inputs
    && is_empty s.pending
    && not s.rerun_pending
    && s.queued == 0
    && s.in_flight == 0
    && not (is_watermark_gated s.kind && ltb_ℤ s.watermark_at_last_run s.input)

unfoldable pub all_done : List (StageId × StageState) → Bool
all_done [] = true
all_done ((id, s) ∷ rest) = stage_is_done s && all_done rest

unfoldable pub is_complete : WatermarkManager → Bool
unfolding all_done
is_complete m = all_done m.stage_map

-- The hold that a producer puts on its consumers' bundles.
unfoldable pub upstream_hold : StageState → Option Timestamp
upstream_hold producer =
    let outstanding =
      not producer.completed && (ltb 0 producer.in_flight || ltb 0 producer.queued) in
    min_option (if outstanding then some producer.watermark_at_last_run else none)
      (min_hold producer)

-- The loop over the inputs; it stops at the first hold that the watermark passes.
unfoldable pub validate_inputs :
    WatermarkManager → StageId → Timestamp → List PCollectionId → Option Error
validate_inputs m stage watermark [] = none
validate_inputs m stage watermark (input ∷ inputs) =
    let rest = validate_inputs m stage watermark inputs in
    elim (get input m.producers) [
      | none ↦ rest
      | some producer_id ↦ elim (get producer_id m.stage_map) [
        | none ↦ rest
        | some producer ↦ elim (upstream_hold producer) [
          | none ↦ rest
          | some hold ↦
              if ltb_ℤ hold watermark
              then some (watermark_violated stage watermark producer_id hold)
              else rest
        ]
      ]
    ]

unfoldable pub validate_bundle_input_watermark :
    WatermarkManager → StageId → Timestamp → Option Error
unfolding validate_inputs
validate_bundle_input_watermark m stage watermark = elim (get stage m.stage_map) [
  | none ↦ some (unknown_stage stage)
  | some s ↦ validate_inputs m stage watermark (all_inputs s)
]
