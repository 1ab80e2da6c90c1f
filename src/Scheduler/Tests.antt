-- ===== src/Scheduler/Tests.antt =====
-- A scheduler for a source that feeds a worker stage, and each theorem about the scheduler there.
use flare_db.Base.{ℕ, ◌≡◌, refl, pos, true, false, none, some, [], ◌∷◌}
use flare_db.Base.Dict.{get, modify, keys}
use flare_db.Base.Members.{filter}
use mathlib.Core.Option
use flare_db.Timers.{TimerEntry, event_time, processing_time}
use flare_db.Watermark.State.{StageId, StageState, WatermarkManager}
use flare_db.Watermark.Bundles.{stage_is_ready, ready_stages}
use flare_db.Scheduler.Graph.{
  ConsumerMetaData, ExecutableNode, worker, runner, ExecutableGraph, node_at,
}
use flare_db.Scheduler.State.{
  NodeScheduler, new_scheduler, Started, start_stage, next_nodes, promote_due_timers,
  promote_due_event_time_timers,
}
use flare_db.Scheduler.Ready.{AllDifferent}
use flare_db.Scheduler.Waves.{node_of, waves, IsAdvanced}
use flare_db.Scheduler.Poll.{next_nodes-IsExact}
use flare_db.Watermark.Refresh.{refresh}
use flare_db.Scheduler.Wave.{IsWave, start_stage-IsWave}
use flare_db.Scheduler.Promote.{
  group, rearm, belongs, is_promoted, promote_due_timers_exact, promote_due_event_time_timers_exact,
}

abbrev edge : ConsumerMetaData
edge = record {
  producer_transform_id = "impulse";
  produced_pcol_id = "pc";
  coder_id = "bytes";
  component_coder = none;
  consumer_transfrom_id = "t";
}

abbrev imp : ExecutableNode
imp =
    runner
      (record { runner_id = "imp"; runner_outputs = "pc" ∷ []; urns = []; auto_finishes = true })

abbrev stage : ExecutableNode
stage = worker (record {
  stage_id = "stage";
  transforms = "t" ∷ [];
  side_inputs = [];
  stage_outputs = [];
  time_sorted = false;
})

abbrev plan : ExecutableGraph
plan = record {
  nodes = imp ∷ stage ∷ [];
  edges = record { source = 0; target = 1; weight = edge } ∷ [];
  components = record { pcollections = []; windowing_strategies = [] };
  root_metadata = some edge;
}

abbrev scheduler : NodeScheduler
scheduler = new_scheduler 2 plan

imp_index : get "imp" scheduler.index_of ≡ some 0
unfolding get new_scheduler flare_db.Base.Dict.put
imp_index = refl

imp_node : node_at 0 scheduler.graph.nodes ≡ some imp
unfolding node_at new_scheduler
imp_node = refl

-- The source has never completed, three bundles are queued for it, and two may run at a time.
abbrev busy : NodeScheduler
busy = record scheduler {
  watermarks = record (scheduler.watermarks) {
    stage_map =
        modify "imp" (λ s. record s { queued = 3; max_in_flight = 2 })
          scheduler.watermarks.stage_map;
  };
}

abbrev nothing_of_busy : Started
nothing_of_busy = record { manager = busy.watermarks; next = [] }

busy_ready : stage_is_ready busy.watermarks "imp" ≡ true
unfolding modify stage_is_ready get new_scheduler
    flare_db.Scheduler.Setup.aggregation_required_watermark
    flare_db.Scheduler.Setup.time_sorted_input_required_watermark
    flare_db.Watermark.Manager.add_stage flare_db.Base.Dict.put flare_db.Base.Text.contains
    flare_db.Watermark.Manager.new flare_db.Watermark.State.is_ready_without_upstream_barrier
    flare_db.Watermark.Manager.collect_set flare_db.Base.Text.dedup flare_db.Base.Text.sort
    flare_db.Scheduler.Graph.incoming flare_db.Scheduler.Setup.side_inputs_of
    flare_db.Scheduler.Graph.worker_stages
busy_ready = refl

start_stage-IsWave_example :
    (state : StageState) × (get "imp" busy.watermarks.stage_map ≡ some state)
    × IsWave "imp" 0 imp state nothing_of_busy (start_stage busy "imp" nothing_of_busy)
start_stage-IsWave_example =
    start_stage-IsWave busy "imp" 0 imp nothing_of_busy busy_ready imp_index imp_node

busy_AllDifferent : AllDifferent (keys busy.watermarks.stage_map)
unfolding AllDifferent keys modify new_scheduler
    flare_db.Scheduler.Setup.aggregation_required_watermark
    flare_db.Scheduler.Setup.time_sorted_input_required_watermark
    flare_db.Watermark.Manager.add_stage flare_db.Base.Dict.put flare_db.Base.Text.contains
    flare_db.Watermark.Manager.new
busy_AllDifferent = (refl, (refl, tt))

next_nodes-IsExact_example :
    ((next_nodes busy).0
      ≡ waves busy (refresh busy.watermarks).0 (ready_stages (refresh busy.watermarks).0))
    × ((id : StageId)
        → stage_is_ready (refresh busy.watermarks).0 id ≡ false
        → get id (next_nodes busy).1.watermarks.stage_map
          ≡ get id (refresh busy.watermarks).0.stage_map)
    × ((id : StageId) (index : ℕ) (node : ExecutableNode) (before : StageState)
        → stage_is_ready (refresh busy.watermarks).0 id ≡ true
        → node_of busy id ≡ some (index, node)
        → get id (refresh busy.watermarks).0.stage_map ≡ some before
        → IsAdvanced id before (next_nodes busy).1.watermarks)
next_nodes-IsExact_example = next_nodes-IsExact busy busy_AllDifferent

-- The poll starts two bundles of the stage, though it has never completed.
first_run_test : (next_nodes busy).0 ≡ (0, imp) ∷ (0, imp) ∷ []
unfolding next_nodes ready_stages flare_db.Base.Text.sort refresh flare_db.Watermark.Manager.stages
    keys modify new_scheduler flare_db.Scheduler.Setup.aggregation_required_watermark
    flare_db.Scheduler.Setup.time_sorted_input_required_watermark
    flare_db.Watermark.Manager.add_stage flare_db.Base.Dict.put flare_db.Base.Text.contains
    flare_db.Watermark.Manager.new flare_db.Base.Text.str_le get flare_db.Base.Text.dedup
    flare_db.Base.max_ℤ flare_db.Base.min_ℤ flare_db.Base.◌+ℤ◌ flare_db.Base.Text.dedup_from
    flare_db.Base.Text.insert_sorted flare_db.Base.Text.set_insert flare_db.Scheduler.Graph.incoming
    node_at flare_db.Scheduler.Graph.outgoing flare_db.Scheduler.Graph.worker_stages
    flare_db.Scheduler.Setup.add_node flare_db.Scheduler.Setup.edge_strategy
    flare_db.Scheduler.Setup.from_executable_graph flare_db.Scheduler.Setup.gate
    flare_db.Scheduler.Setup.index_nodes flare_db.Scheduler.Setup.own_transforms
    flare_db.Scheduler.Setup.raise_ceilings flare_db.Scheduler.Setup.read_windowing
    flare_db.Scheduler.Setup.register_node flare_db.Scheduler.Setup.register_nodes
    flare_db.Scheduler.Setup.side_inputs_of flare_db.Scheduler.Setup.transforms_of_nodes
    flare_db.Scheduler.State.start_loop start_stage flare_db.Scheduler.State.start_stages
    flare_db.Watermark.Bundles.all_quiescent flare_db.Watermark.Bundles.filter_ready
    flare_db.Watermark.Bundles.producer_is_quiescent flare_db.Watermark.Bundles.producer_stage
    stage_is_ready flare_db.Watermark.Bundles.start_bundle flare_db.Watermark.Bundles.start_refusal
    flare_db.Watermark.Bundles.started flare_db.Watermark.Bundles.upstream_chain_is_quiescent
    flare_db.Watermark.Manager.add_consumers flare_db.Watermark.Manager.add_producers
    flare_db.Watermark.Manager.collect_set
    flare_db.Watermark.Manager.global_window_completion_watermark
    flare_db.Watermark.Manager.new_stage flare_db.Watermark.Manager.queued_bundles
    flare_db.Watermark.Manager.saturating_add flare_db.Watermark.Manager.set_max_in_flight
    flare_db.Watermark.Manager.set_required_watermark
    flare_db.Watermark.Manager.set_source_auto_finish flare_db.Watermark.Manager.set_stage_kind
    flare_db.Watermark.Manager.source_mut flare_db.Watermark.Manager.stage_mut
    flare_db.Watermark.Refresh.base_output flare_db.Watermark.Refresh.compute_input
    flare_db.Watermark.Refresh.compute_output flare_db.Watermark.Refresh.min_upstream
    flare_db.Watermark.Refresh.refresh_loop flare_db.Watermark.Refresh.refresh_one
    flare_db.Watermark.Refresh.refresh_pass flare_db.Watermark.Refresh.refresh_stage
    flare_db.Watermark.Refresh.total_gap flare_db.Watermark.Refresh.upstream
    flare_db.Watermark.State.first_key flare_db.Watermark.State.has_work
    flare_db.Watermark.State.is_ready_without_upstream_barrier flare_db.Watermark.State.kind_gate
    flare_db.Watermark.State.min_active flare_db.Watermark.State.min_hold
    flare_db.Watermark.State.source_output
first_run_test = refl

abbrev timer : TimerEntry
timer = record {
  key = record {
    transform_id = "t";
    timer_family_id = "f";
    tag = "";
    window = "w";
    user_key = 7 ∷ [];
  };
  domain = processing_time;
  fire_timestamp = pos 5;
  hold_timestamp = pos 5;
}

abbrev event_timer : TimerEntry
event_timer = record timer { domain = event_time }

promote_due_timers_exact_example :
    (get "stage" (promote_due_timers scheduler (timer ∷ [])).0
      ≡ group (filter (belongs scheduler "stage") (timer ∷ [])))
    × (get "stage" (promote_due_timers scheduler (timer ∷ [])).1.watermarks.stage_map
        ≡ Option.map
            (rearm (filter (belongs scheduler "stage") (timer ∷ [])))
            (get "stage" scheduler.watermarks.stage_map))
promote_due_timers_exact_example = promote_due_timers_exact scheduler (timer ∷ []) "stage"

-- The timer is handed to the stage of its transform.
timer_promoted : get "stage" (promote_due_timers scheduler (timer ∷ [])).0 ≡ some (timer ∷ [])
unfolding get promote_due_timers flare_db.Base.Text.sort flare_db.Base.Dict.keys new_scheduler
    flare_db.Base.Dict.put
timer_promoted = refl

promote_due_event_time_timers_exact_example :
    (get "stage" (promote_due_event_time_timers scheduler (timer ∷ event_timer ∷ [])).0
      ≡ group (filter (is_promoted scheduler "stage") (timer ∷ event_timer ∷ [])))
    × (get "stage"
          (promote_due_event_time_timers scheduler
            (timer ∷ event_timer ∷ [])).1.watermarks.stage_map
        ≡ Option.map
            (rearm (filter (is_promoted scheduler "stage") (timer ∷ event_timer ∷ [])))
            (get "stage" scheduler.watermarks.stage_map))
promote_due_event_time_timers_exact_example =
    promote_due_event_time_timers_exact scheduler (timer ∷ event_timer ∷ []) "stage"
