-- ===== src/Watermark/Manager.antt =====
-- The methods of `WatermarkManager` in flaredb/src/engine/watermark.rs that register stages, take
-- reports and holds, and answer questions. A lookup of a missing stage is the error it makes.
use flare_db.Base.{
  ◌≡◌, ℕ, ◌+◌, ℤ, pos, negsuc, String, Bool, true, false, not, Option, none, some, List, [], ◌∷◌,
  ◌++◌, ltb, leb, if◌then◌else◌, ltb_ℤ, min_ℤ, max_ℤ, ◌+ℤ◌,
}
use flare_db.Base.Text.{contains, set_insert, sort}
use flare_db.Base.Dict.{get, put, modify, modify_all, keys}
use flare_db.Watermark.State.{
  Timestamp, StageId, PCollectionId, min_timestamp, max_timestamp, default_partition,
  PartitionWatermark, SourceState, default_source, default_partition_watermark, StageKind, ordinary,
  StageState, WatermarkManager, hold_add, hold_release, hold_all, is_empty, is_none,
}
use mathlib.Core.Option

-- The errors of the manager, each for one message.
pub data Error : Type 0 where
  unknown_stage : StageId → Error
  not_a_source : StageId → Error
  maximum_in_flight : StageId → Error
  first_bundle_in_flight : StageId → Error
  not_re_armed : StageId → Error
  unproduced_main_inputs : StageId → Error
  no_bundle_in_flight : StageId → Error
  watermark_violated : StageId → Timestamp → StageId → Timestamp → Error

pub data Result {ℓ} (A : Type ℓ) : Type ℓ where
  ok : A → Result A
  err : Error → Result A

infixl 5 ◌>>=◌
abbrev pub ◌>>=◌ {ℓ κ} : {A : Type ℓ} {B : Type κ} → Result A → (A → Result B) → Result B
ok a >>= f = f a
err e >>= f = err e

pub err≢ok {ℓ} : {A : Type ℓ} (e : Error) (a : A) → err e ≡ ok a → ⊥
err≢ok e a h = cc

pub ok_eq {ℓ} : {A : Type ℓ} (a b : A) → ok a ≡ ok b → a ≡ b
ok_eq a b h = cc

unfoldable pub new : WatermarkManager
new = record { stage_map = []; producers = []; consumers = []; side_input_consumers = [] }

-- One `producers.insert` for each output.
unfoldable pub add_producers :
    StageId → List PCollectionId → List (PCollectionId × StageId) → List (PCollectionId × StageId)
add_producers stage [] m = m
add_producers stage (output ∷ outputs) m = add_producers stage outputs (put output stage m)

abbrev pub consumers_of : Option (List StageId) → List StageId
consumers_of none = []
consumers_of (some ids) = ids

-- For each input, pushes the stage on the input's consumers unless it is there.
unfoldable pub add_consumers :
    StageId
    → List PCollectionId
    → List (PCollectionId × List StageId)
    → List (PCollectionId × List StageId)
add_consumers stage [] m = m
add_consumers stage (input ∷ inputs) m =
    let ids = consumers_of (get input m) in
    add_consumers stage inputs
      (put input (if contains ids stage then ids else ids ++ (stage ∷ [])) m)

-- `collect` into a `BTreeSet`.
unfoldable pub collect_set : List String → List String
collect_set [] = []
collect_set (x ∷ xs) = set_insert x (collect_set xs)

unfoldable pub new_stage : List PCollectionId → List PCollectionId → List PCollectionId → StageState
new_stage main_inputs side_inputs outputs = record {
  main_inputs = main_inputs;
  side_inputs = side_inputs;
  outputs = outputs;
  source = if is_empty main_inputs then some default_source else none;
  input = if is_empty main_inputs then max_timestamp else min_timestamp;
  output = min_timestamp;
  watermark_holds = [];
  residual_holds = [];
  unproduced = collect_set main_inputs;
  unproduced_side_inputs = collect_set side_inputs;
  pending = [];
  pending_min = max_timestamp;
  in_flight = 0;
  queued = 0;
  max_in_flight = 1;
  completed = false;
  rerun_pending = false;
  kind = ordinary;
  time_sorted_input_closed = false;
  required_watermark = min_timestamp;
  watermark_at_last_run = min_timestamp;
  pending_empty = [];
}

unfoldable pub add_stage :
    WatermarkManager
    → StageId
    → List PCollectionId
    → List PCollectionId
    → List PCollectionId
    → WatermarkManager
unfolding new_stage add_producers add_consumers
add_stage m stage main_inputs side_inputs outputs = record {
  stage_map = put stage (new_stage main_inputs side_inputs outputs) m.stage_map;
  producers = add_producers stage outputs m.producers;
  consumers = add_consumers stage main_inputs m.consumers;
  side_input_consumers = add_consumers stage side_inputs m.side_input_consumers;
}

unfoldable pub contains_stage : WatermarkManager → StageId → Bool
contains_stage m stage = not (is_none (get stage m.stage_map))

-- All stage ids, sorted.
unfoldable pub stages : WatermarkManager → List StageId
stages m = sort (keys m.stage_map)

-- A change through `stage_mut`.
unfoldable pub stage_mut :
    WatermarkManager → StageId → (StageState → StageState) → Result WatermarkManager
stage_mut m stage f = elim (get stage m.stage_map) [
  | none ↦ err (unknown_stage stage)
  | some s ↦ ok (record m { stage_map = modify stage f m.stage_map })
]

abbrev pub map_source : (SourceState → SourceState) → StageState → StageState
map_source f s = record s { source = Option.map f s.source }

-- A change through `source_mut`.
unfoldable pub source_mut :
    WatermarkManager → StageId → (SourceState → SourceState) → Result WatermarkManager
source_mut m stage f = elim (get stage m.stage_map) [
  | none ↦ err (unknown_stage stage)
  | some s ↦
      if is_none s.source
      then err (not_a_source stage)
      else ok (record m { stage_map = modify stage (map_source f) m.stage_map })
]

abbrev pub entry_or_default : Option PartitionWatermark → PartitionWatermark
entry_or_default none = default_partition_watermark
entry_or_default (some p) = p

abbrev pub report_partition : String → Timestamp → SourceState → SourceState
report_partition partition timestamp s =
    let entry = entry_or_default (get partition s.partitions) in
    record s {
      partitions =
          put partition (record { watermark = max_ℤ entry.watermark timestamp; idle = false })
            s.partitions;
    }

unfoldable pub report_source_partition_watermark :
    WatermarkManager → StageId → String → Timestamp → Result WatermarkManager
unfolding source_mut
report_source_partition_watermark m stage partition timestamp =
    source_mut m stage (report_partition partition timestamp)

unfoldable pub report_source_watermark :
    WatermarkManager → StageId → Timestamp → Result WatermarkManager
unfolding report_source_partition_watermark
report_source_watermark m stage timestamp =
    report_source_partition_watermark m stage default_partition timestamp

abbrev pub mark_idle : String → Bool → SourceState → SourceState
mark_idle partition idle s =
    let entry = entry_or_default (get partition s.partitions) in
    record s { partitions = put partition (record entry { idle = idle }) s.partitions }

unfoldable pub set_source_partition_idle :
    WatermarkManager → StageId → String → Bool → Result WatermarkManager
unfolding source_mut
set_source_partition_idle m stage partition idle = source_mut m stage (mark_idle partition idle)

abbrev pub mark_finished : SourceState → SourceState
mark_finished s = record s { finished = true }

unfoldable pub report_source_finished : WatermarkManager → StageId → Result WatermarkManager
unfolding source_mut
report_source_finished m stage = source_mut m stage mark_finished

unfoldable pub set_source_auto_finish : WatermarkManager → StageId → Bool → Result WatermarkManager
unfolding source_mut
set_source_auto_finish m stage auto_finish =
    source_mut m stage (λ s. record s { auto_finish = auto_finish })

-- `map_or` over an optional stage.
abbrev pub stage_or {ℓ} : {A : Type ℓ} → A → (StageState → A) → Option StageState → A
stage_or d f none = d
stage_or d f (some s) = f s

abbrev pub auto_finish_of : Option SourceState → Bool
auto_finish_of none = true
auto_finish_of (some s) = s.auto_finish

unfoldable pub source_auto_finishes : WatermarkManager → StageId → Bool
source_auto_finishes m stage = stage_or true (λ s. auto_finish_of s.source) (get stage m.stage_map)

abbrev pub hold_at : Timestamp → StageState → StageState
hold_at timestamp s = record s { watermark_holds = hold_add timestamp s.watermark_holds }

unfoldable pub add_hold : WatermarkManager → StageId → Timestamp → Result WatermarkManager
unfolding stage_mut
add_hold m stage timestamp = stage_mut m stage (hold_at timestamp)

abbrev pub timestamps_of : Option (List Timestamp) → List Timestamp
timestamps_of none = []
timestamps_of (some ts) = ts

unfoldable pub set_event_time_holds :
    WatermarkManager → List (StageId × List Timestamp) → WatermarkManager
set_event_time_holds m holds = record m {
  stage_map =
      modify_all (λ id s. record s { watermark_holds = hold_all (timestamps_of (get id holds)) [] })
        m.stage_map;
}

unfoldable pub set_residual_holds :
    WatermarkManager → List (StageId × List Timestamp) → WatermarkManager
set_residual_holds m holds = record m {
  stage_map =
      modify_all (λ id s. record s { residual_holds = hold_all (timestamps_of (get id holds)) [] })
        m.stage_map;
}

abbrev pub unhold_at : Timestamp → StageState → StageState
unhold_at timestamp s = record s { watermark_holds = hold_release timestamp s.watermark_holds }

unfoldable pub release_hold : WatermarkManager → StageId → Timestamp → Result WatermarkManager
unfolding stage_mut
release_hold m stage timestamp = stage_mut m stage (unhold_at timestamp)

unfoldable pub input_watermark : WatermarkManager → StageId → Option Timestamp
input_watermark m stage = Option.map (λ s. s.input) (get stage m.stage_map)

unfoldable pub bundle_input_watermark : WatermarkManager → StageId → Option Timestamp
bundle_input_watermark m stage = Option.map (λ s. s.watermark_at_last_run) (get stage m.stage_map)

unfoldable pub effective_input_watermark : WatermarkManager → StageId → Option Timestamp
effective_input_watermark m stage =
    Option.map (λ s. min_ℤ s.input s.pending_min) (get stage m.stage_map)

unfoldable pub output_watermark : WatermarkManager → StageId → Option Timestamp
output_watermark m stage = Option.map (λ s. s.output) (get stage m.stage_map)

unfoldable pub pcollection_watermark : WatermarkManager → PCollectionId → Option Timestamp
unfolding output_watermark
pcollection_watermark m pcollection = elim (get pcollection m.producers) [
  | none ↦ none
  | some producer ↦ output_watermark m producer
]

unfoldable pub set_stage_kind : WatermarkManager → StageId → StageKind → Result WatermarkManager
unfolding stage_mut
set_stage_kind m stage kind = stage_mut m stage (λ s. record s { kind = kind })

unfoldable pub set_required_watermark :
    WatermarkManager → StageId → Timestamp → Result WatermarkManager
unfolding stage_mut
set_required_watermark m stage watermark =
    stage_mut m stage (λ s. record s { required_watermark = watermark })

unfoldable pub is_stage_completed : WatermarkManager → StageId → Bool
is_stage_completed m stage = stage_or false (λ s. s.completed) (get stage m.stage_map)

unfoldable pub is_stage_in_flight : WatermarkManager → StageId → Bool
is_stage_in_flight m stage = stage_or false (λ s. ltb 0 s.in_flight) (get stage m.stage_map)

unfoldable pub side_inputs_produced : WatermarkManager → StageId → Bool
side_inputs_produced m stage =
    stage_or false (λ s. is_empty s.unproduced_side_inputs) (get stage m.stage_map)

abbrev pub at_least_one : ℕ → ℕ
at_least_one n = if leb n 1 then 1 else n

unfoldable pub set_max_in_flight : WatermarkManager → StageId → ℕ → Result WatermarkManager
unfolding stage_mut
set_max_in_flight m stage max =
    stage_mut m stage (λ s. record s { max_in_flight = at_least_one max })

unfoldable pub enqueue_bundles : WatermarkManager → StageId → ℕ → Result WatermarkManager
unfolding stage_mut
enqueue_bundles m stage count = stage_mut m stage (λ s. record s { queued = s.queued + count })

-- Re-arms a stage to run another bundle.
unfoldable pub mark_rerun : WatermarkManager → StageId → Result WatermarkManager
unfolding stage_mut
mark_rerun m stage = stage_mut m stage (λ s. record s { rerun_pending = true })

-- `i64::saturating_add`
unfoldable pub saturating_add : ℤ → ℤ → ℤ
saturating_add a b =
    let sum = a +ℤ b in
    if ltb_ℤ (pos 9_223_372_036_854_775_807) sum
    then pos 9_223_372_036_854_775_807
    else if ltb_ℤ sum (negsuc 9_223_372_036_854_775_807)
    then negsuc 9_223_372_036_854_775_807
    else sum

abbrev pub global_window_max_timestamp : Timestamp
global_window_max_timestamp = pos 9_223_371_950_454_775

unfoldable pub global_window_completion_watermark : Timestamp → Timestamp
unfolding saturating_add
global_window_completion_watermark allowed_lateness =
    min_ℤ (saturating_add global_window_max_timestamp allowed_lateness) max_timestamp

unfoldable pub stage_kind : WatermarkManager → StageId → Option StageKind
stage_kind m stage = Option.map (λ s. s.kind) (get stage m.stage_map)

unfoldable pub required_watermark : WatermarkManager → StageId → Option Timestamp
required_watermark m stage = Option.map (λ s. s.required_watermark) (get stage m.stage_map)

unfoldable pub in_flight_bundles : WatermarkManager → StageId → ℕ
in_flight_bundles m stage = stage_or 0 (λ s. s.in_flight) (get stage m.stage_map)

unfoldable pub queued_bundles : WatermarkManager → StageId → ℕ
queued_bundles m stage = stage_or 0 (λ s. s.queued) (get stage m.stage_map)

unfoldable pub max_in_flight : WatermarkManager → StageId → ℕ
max_in_flight m stage = stage_or 1 (λ s. s.max_in_flight) (get stage m.stage_map)
