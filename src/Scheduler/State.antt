-- ===== src/Scheduler/State.antt =====
-- `NodeScheduler` of flaredb/src/engine/scheduler.rs: its state and its operations.
use flare_db.Base.{
  ℕ, zero, suc, String, Bool, false, ◌&&◌, Option, none, some, List, [], ◌∷◌, ◌++◌, ◌==◌,
  if◌then◌else◌,
}
use flare_db.Base.Text.{sort}
use flare_db.Base.Dict.{get, put, keys}
use flare_db.Timers.{TimerEntry, is_event_time, is_due_at_watermark}
use flare_db.Watermark.State.{Timestamp, StageId, min_timestamp, WatermarkManager, is_source}
use flare_db.Watermark.Manager.{
  Result, ok, err, stage_or, source_auto_finishes, report_source_finished, mark_rerun,
  queued_bundles, effective_input_watermark,
}
use flare_db.Watermark.Bundles
use flare_db.Watermark.Bundles.{start_bundle, ready_stages, complete_bundle_with_min_and_input}
use flare_db.Watermark.Refresh.{refresh}
use flare_db.Scheduler.Graph.{
  ConsumerMetaData, ExecutableNode, ExecutableGraph, node_id, node_at, incoming,
}
use flare_db.Scheduler.Setup.{
  or_unchanged, from_executable_graph, index_nodes, transforms_of_nodes, raise_ceilings,
}

pub record NodeScheduler : Type 0 where
  pub graph : ExecutableGraph
  pub watermarks : WatermarkManager
  pub index_of : List (StageId × ℕ)
  pub transform_to_stage : List (String × StageId)

-- `NodeScheduler::new`, where `concurrency` is the answer of `splittable_max_in_flight`.
unfoldable pub new_scheduler : ℕ → ExecutableGraph → NodeScheduler
unfolding from_executable_graph index_nodes transforms_of_nodes raise_ceilings
new_scheduler concurrency g = record {
  graph = g;
  watermarks = raise_ceilings concurrency g.nodes (from_executable_graph g);
  index_of = index_nodes 0 g.nodes [];
  transform_to_stage = transforms_of_nodes g.nodes [];
}

-- What the loops of `next_nodes` carry: the manager, and the nodes that were started.
pub record Started : Type 0 where
  pub manager : WatermarkManager
  pub next : List (ℕ × ExecutableNode)

-- The `while` over one stage, on fuel: each turn takes a bundle from the queue, and none follows a
-- turn that leaves the queue empty.
unfoldable pub start_loop : ℕ → StageId → ℕ → ExecutableNode → Started → Started
start_loop zero stage index node w = w
start_loop (suc fuel) stage index node w = elim (start_bundle w.manager stage) [
  | err e ↦ w
  | ok m ↦
      let one : Started = record { manager = m; next = w.next ++ ((index, node) ∷ []) } in
      let rest = start_loop fuel stage index node one in
      if queued_bundles m stage == 0 then one else rest
]

-- A stage that has no index is passed over.
unfoldable pub start_stage : NodeScheduler → StageId → Started → Started
unfolding start_loop
start_stage s stage w = elim (get stage s.index_of) [
  | none ↦ w
  | some index ↦ elim (node_at index s.graph.nodes) [
    | none ↦ w
    | some node ↦ start_loop (suc (queued_bundles w.manager stage)) stage index node w
  ]
]

unfoldable pub start_stages : NodeScheduler → List StageId → Started → Started
unfolding start_stage
start_stages s [] w = w
start_stages s (stage ∷ ready) w = start_stages s ready (start_stage s stage w)

unfoldable pub next_nodes : NodeScheduler → List (ℕ × ExecutableNode) × NodeScheduler
unfolding start_stages
next_nodes s =
    let refreshed = (refresh s.watermarks).0 in
    let done =
      start_stages s (ready_stages refreshed) (record { manager = refreshed; next = [] }) in
    (done.next, record s { watermarks = done.manager })

-- `WatermarkManager::is_source`
unfoldable pub is_source_stage : WatermarkManager → StageId → Bool
is_source_stage m stage = stage_or false is_source (get stage m.stage_map)

unfoldable pub finishes_source : WatermarkManager → StageId → Bool
finishes_source m stage = is_source_stage m stage && source_auto_finishes m stage

-- The manager that a completion leaves, before the refresh; an error changes nothing.
abbrev pub completed_or :
    WatermarkManager → Result (WatermarkManager × List StageId) → WatermarkManager
completed_or m (ok done) = done.0
completed_or m (err e) = m

unfoldable pub complete_stage :
    WatermarkManager → StageId → Option Timestamp → Option ℕ → WatermarkManager
unfolding finishes_source
complete_stage m stage output_min_ts input_count =
    let reported =
      if finishes_source m stage then or_unchanged m (report_source_finished m stage) else m in
    (refresh (
      completed_or reported
        (complete_bundle_with_min_and_input reported stage output_min_ts input_count))).0

-- `none` is the panic of an index that the graph does not have.
unfoldable pub mark_complete_with_min_and_input :
    NodeScheduler → ℕ → Option Timestamp → Option ℕ → Option NodeScheduler
unfolding complete_stage
mark_complete_with_min_and_input s index output_min_ts input_count =
    elim (node_at index s.graph.nodes) [
      | none ↦ none
      | some node ↦ some (record s {
        watermarks = complete_stage s.watermarks (node_id node) output_min_ts input_count;
      })
    ]

unfoldable pub mark_complete_with_min : NodeScheduler → ℕ → Option Timestamp → Option NodeScheduler
unfolding mark_complete_with_min_and_input
mark_complete_with_min s index output_min_ts =
    mark_complete_with_min_and_input s index output_min_ts none

unfoldable pub mark_complete : NodeScheduler → ℕ → Option NodeScheduler
unfolding mark_complete_with_min
mark_complete s index = mark_complete_with_min s index none

abbrev pub timers_of : Option (List TimerEntry) → List TimerEntry
timers_of none = []
timers_of (some es) = es

-- `by_stage.entry(stage).or_default().push(entry)`
unfoldable pub push_timer :
    StageId → TimerEntry → List (StageId × List TimerEntry) → List (StageId × List TimerEntry)
push_timer stage e m = put stage (timers_of (get stage m) ++ (e ∷ [])) m

-- The entries of a `BTreeMap`, in the order of its keys.
unfoldable pub entries_at :
    List (StageId × List TimerEntry) → List StageId → List (StageId × List TimerEntry)
entries_at m [] = []
entries_at m (k ∷ ks) = elim (get k m) [
  | none ↦ entries_at m ks
  | some es ↦ (k, es) ∷ entries_at m ks
]

unfoldable pub in_key_order : List (StageId × List TimerEntry) → List (StageId × List TimerEntry)
unfolding entries_at
in_key_order m = entries_at m (sort (keys m))

-- What the loops over the timers carry: the manager, and the timers of each stage.
pub record Promoted : Type 0 where
  pub rearmed : WatermarkManager
  pub by_stage : List (StageId × List TimerEntry)

unfoldable pub promote : StageId → TimerEntry → Promoted → Promoted
unfolding push_timer
promote stage e p = record {
  rearmed = or_unchanged p.rearmed (mark_rerun p.rearmed stage);
  by_stage = push_timer stage e p.by_stage;
}

unfoldable pub promote_each : NodeScheduler → List TimerEntry → Promoted → Promoted
unfolding promote
promote_each s [] p = p
promote_each s (e ∷ due) p = elim (get e.key.transform_id s.transform_to_stage) [
  | none ↦ promote_each s due p
  | some stage ↦ promote_each s due (promote stage e p)
]

abbrev pub nothing_promoted : NodeScheduler → Promoted
nothing_promoted s = record { rearmed = s.watermarks; by_stage = [] }

unfoldable pub promote_due_timers :
    NodeScheduler → List TimerEntry → List (StageId × List TimerEntry) × NodeScheduler
unfolding promote_each in_key_order
promote_due_timers s due =
    let done = promote_each s due (nothing_promoted s) in
    (in_key_order done.by_stage, record s { watermarks = done.rearmed })

abbrev pub watermark_or_min : Option Timestamp → Timestamp
watermark_or_min none = min_timestamp
watermark_or_min (some t) = t

-- Whether the stage's input watermark, clamped by its pending input, has reached the timer.
unfoldable pub is_due_for : WatermarkManager → StageId → TimerEntry → Bool
is_due_for m stage e = is_due_at_watermark e (watermark_or_min (effective_input_watermark m stage))

unfoldable pub promote_event_each : NodeScheduler → List TimerEntry → Promoted → Promoted
unfolding promote is_due_for
promote_event_each s [] p = p
promote_event_each s (e ∷ timers) p =
    if is_event_time e.domain
    then elim (get e.key.transform_id s.transform_to_stage) [
      | none ↦ promote_event_each s timers p
      | some stage ↦
          if is_due_for p.rearmed stage e
          then promote_event_each s timers (promote stage e p)
          else promote_event_each s timers p
    ]
    else promote_event_each s timers p

unfoldable pub promote_due_event_time_timers :
    NodeScheduler → List TimerEntry → List (StageId × List TimerEntry) × NodeScheduler
unfolding promote_event_each in_key_order
promote_due_event_time_timers s timers =
    let done = promote_event_each s timers (nothing_promoted s) in
    (in_key_order done.by_stage, record s { watermarks = done.rearmed })

unfoldable pub stage_for_transform : NodeScheduler → String → Option StageId
stage_for_transform s transform_id = get transform_id s.transform_to_stage

-- The edges of a root are the graph's root metadata, whose absence panics.
unfoldable pub input_edge_metadata : NodeScheduler → ℕ → Option (List ConsumerMetaData)
input_edge_metadata s index = elim (incoming index s.graph.edges) [
  | edge ∷ edges ↦ some (edge ∷ edges)
  | [] ↦ elim s.graph.root_metadata [ none ↦ none | some root ↦ some (root ∷ []) ]
]

unfoldable pub is_complete : NodeScheduler → Bool
is_complete s = Bundles.is_complete s.watermarks
