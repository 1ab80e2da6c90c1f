-- ===== src/Scheduler/Setup.antt =====
-- `WatermarkManager::from_executable_graph` of flaredb/src/engine/watermark.rs with the required
-- watermarks that it reads off the graph, and `NodeScheduler::new` of flaredb/src/engine/scheduler.rs.
use flare_db.Base.{
  ℕ, suc, String, ℤ, pos, max_ℤ, Bool, true, false, not, Option, none, some, List, [], ◌∷◌, ◌++◌,
  if◌then◌else◌,
}
use flare_db.Base.Text.{str_eq, contains, sort, dedup}
use flare_db.Base.Dict.{get, put}
use flare_db.Watermark.State.{
  Timestamp, StageId, PCollectionId, StageKind, min_timestamp, watermark_gated,
  time_sorted_input_watermark_gated, WatermarkManager,
}
use flare_db.Watermark.Manager.{
  Result, ok, err, new, add_stage, set_source_auto_finish, set_stage_kind, set_required_watermark,
  set_max_in_flight, global_window_completion_watermark,
}
use flare_db.Scheduler.Graph.{
  ConsumerMetaData, ExecutableStage, process_elements, process_keyed_elements,
  process_sized_elements_and_restrictions, SplittableProcessKind, ExecutableNode, worker, runner,
  splittable, WindowingStrategy, Components, ExecutableGraph, node_id, output_pcols, worker_stages,
  incoming, outgoing, produced_ids,
}

abbrev pub group_by_key_transform : String
group_by_key_transform = "beam:transform:group_by_key:v1"

abbrev pub global_windows_fn : String
global_windows_fn = "beam:window_fn:global_windows:v1"

-- The windowing strategy of an incoming edge, where both lookups find one.
unfoldable pub edge_strategy : Components → ConsumerMetaData → Option WindowingStrategy
edge_strategy c edge = elim (get edge.produced_pcol_id c.pcollections) [
  | none ↦ none
  | some pcol ↦ get pcol.windowing_strategy_id c.windowing_strategies
]

-- What the loop over the incoming edges carries.
pub record Windowing : Type 0 where
  pub window_fn_urn : Option String
  pub lateness : ℤ

abbrev pub later_urn : Option String → Option String → Option String
later_urn none urn = urn
later_urn (some new_urn) urn = some new_urn

unfoldable pub read_windowing : Components → List ConsumerMetaData → Windowing → Windowing
unfolding edge_strategy
read_windowing c [] w = w
read_windowing c (edge ∷ edges) w = elim (edge_strategy c edge) [
  | none ↦ read_windowing c edges w
  | some s ↦ read_windowing c edges (record {
    window_fn_urn = later_urn s.window_fn w.window_fn_urn;
    lateness = max_ℤ w.lateness s.allowed_lateness;
  })
]

abbrev pub no_windowing : Windowing
no_windowing = record { window_fn_urn = none; lateness = pos 0 }

abbrev pub is_global : Option String → Bool
is_global (some urn) = str_eq urn global_windows_fn
is_global none = true

abbrev pub is_aggregation : ExecutableNode → Bool
is_aggregation (runner r) = contains r.urns group_by_key_transform
is_aggregation (worker e) = false
is_aggregation (splittable s nested) = false

abbrev pub wants_time_sorted : ExecutableNode → Bool
wants_time_sorted (worker e) = e.time_sorted
wants_time_sorted (runner r) = false
wants_time_sorted (splittable s nested) = false

unfoldable pub aggregation_required_watermark :
    ExecutableNode → ExecutableGraph → ℕ → Option Timestamp
unfolding read_windowing
aggregation_required_watermark node g index =
    let w = read_windowing g.components (incoming index g.edges) no_windowing in
    if not (is_aggregation node)
    then none
    else if is_global w.window_fn_urn
    then some (global_window_completion_watermark w.lateness)
    else some min_timestamp

unfoldable pub time_sorted_input_required_watermark :
    ExecutableNode → ExecutableGraph → ℕ → Option Timestamp
unfolding read_windowing
time_sorted_input_required_watermark node g index =
    let w = read_windowing g.components (incoming index g.edges) no_windowing in
    if not (wants_time_sorted node)
    then none
    else if is_global w.window_fn_urn
    then some (global_window_completion_watermark w.lateness)
    else none

unfoldable pub side_inputs_of : List ExecutableStage → List PCollectionId
side_inputs_of [] = []
side_inputs_of (s ∷ stages) = s.side_inputs ++ side_inputs_of stages

-- `.ok()` on a change of the manager, whose error is dropped.
abbrev pub or_unchanged : WatermarkManager → Result WatermarkManager → WatermarkManager
or_unchanged m (ok n) = n
or_unchanged m (err e) = m

unfoldable pub gate : StageId → StageKind → Timestamp → WatermarkManager → WatermarkManager
gate id kind required m =
    let gated = or_unchanged m (set_stage_kind m id kind) in
    or_unchanged gated (set_required_watermark gated id required)

abbrev pub is_event_stream : ExecutableNode → Bool
is_event_stream (runner r) = not r.auto_finishes
is_event_stream (worker e) = false
is_event_stream (splittable s nested) = false

-- `add_stage` for a node, and the mark of a source that reports its end itself.
unfoldable pub add_node : ExecutableGraph → ℕ → ExecutableNode → WatermarkManager → WatermarkManager
add_node g index node m =
    let added =
      add_stage m (node_id node) (dedup (sort (produced_ids (incoming index g.edges))))
        (dedup (sort (side_inputs_of (worker_stages node))))
        (dedup (sort (output_pcols node ++ produced_ids (outgoing index g.edges)))) in
    if is_event_stream node
    then or_unchanged added (set_source_auto_finish added (node_id node) false)
    else added

-- The gate of an aggregation, else that of a stage with time-sorted input.
abbrev pub gate_node :
    StageId → Option Timestamp → Option Timestamp → WatermarkManager → WatermarkManager
gate_node id (some required) sorted m = gate id watermark_gated required m
gate_node id none (some required) m = gate id time_sorted_input_watermark_gated required m
gate_node id none none m = m

-- The body of the loop over the nodes.
unfoldable pub register_node :
    ExecutableGraph → ℕ → ExecutableNode → WatermarkManager → WatermarkManager
unfolding add_node
register_node g index node m =
    gate_node (node_id node) (aggregation_required_watermark node g index)
      (time_sorted_input_required_watermark node g index) (add_node g index node m)

unfoldable pub register_nodes :
    ExecutableGraph → ℕ → List ExecutableNode → WatermarkManager → WatermarkManager
unfolding register_node
register_nodes g index [] m = m
register_nodes g index (node ∷ nodes) m =
    register_nodes g (suc index) nodes (register_node g index node m)

unfoldable pub from_executable_graph : ExecutableGraph → WatermarkManager
unfolding register_nodes
from_executable_graph g = register_nodes g 0 g.nodes new

-- The maps of the scheduler's constructor.
unfoldable pub index_nodes : ℕ → List ExecutableNode → List (StageId × ℕ) → List (StageId × ℕ)
index_nodes index [] m = m
index_nodes index (node ∷ nodes) m = index_nodes (suc index) nodes (put (node_id node) index m)

unfoldable pub own_transforms :
    StageId → List String → List (String × StageId) → List (String × StageId)
own_transforms id [] m = m
own_transforms id (t ∷ ts) m = own_transforms id ts (put t id m)

unfoldable pub transforms_of_nodes :
    List ExecutableNode → List (String × StageId) → List (String × StageId)
unfolding own_transforms
transforms_of_nodes [] m = m
transforms_of_nodes (worker e ∷ nodes) m =
    transforms_of_nodes nodes (own_transforms e.stage_id e.transforms m)
transforms_of_nodes (runner r ∷ nodes) m = transforms_of_nodes nodes m
transforms_of_nodes (splittable s nested ∷ nodes) m = transforms_of_nodes nodes m

abbrev pub is_sized : SplittableProcessKind → Bool
is_sized process_sized_elements_and_restrictions = true
is_sized process_elements = false
is_sized process_keyed_elements = false

-- The ceiling of one node: only the splittable stages of sized elements get more than one bundle.
abbrev pub raise_ceiling : ℕ → ExecutableNode → WatermarkManager → WatermarkManager
raise_ceiling concurrency (splittable s nested) m =
    if is_sized s.process_kind
    then or_unchanged m (set_max_in_flight m s.splittable_id concurrency)
    else m
raise_ceiling concurrency (worker e) m = m
raise_ceiling concurrency (runner r) m = m

unfoldable pub raise_ceilings : ℕ → List ExecutableNode → WatermarkManager → WatermarkManager
raise_ceilings concurrency [] m = m
raise_ceilings concurrency (node ∷ nodes) m =
    raise_ceilings concurrency nodes (raise_ceiling concurrency node m)
