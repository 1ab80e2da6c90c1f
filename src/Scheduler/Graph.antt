-- ===== src/Scheduler/Graph.antt =====
-- `ExecutableGraph` and `ExecutableNode` of flaredb/src/fusion/pipeline.rs with `ExecutableStage` and
-- `SplittableStage` of flaredb/src/fusion/stage.rs, as far as the scheduler and the watermark manager
-- read them.
use flare_db.Base.{
  ℕ, zero, suc, String, Bool, ℤ, Option, none, some, List, [], ◌∷◌, ◌++◌, ◌==◌, if◌then◌else◌,
}
use flare_db.Watermark.State.{StageId, PCollectionId}

pub record ConsumerMetaData : Type 0 where
  pub producer_transform_id : String
  pub produced_pcol_id : PCollectionId
  pub coder_id : String
  pub component_coder : Option (List String)
  pub consumer_transfrom_id : String

-- `time_sorted` is the answer of `requires_time_sorted_input`.
pub record ExecutableStage : Type 0 where
  pub stage_id : StageId
  pub transforms : List String
  pub side_inputs : List PCollectionId
  pub stage_outputs : List PCollectionId
  pub time_sorted : Bool

pub data SplittableProcessKind : Type 0 where
  process_elements process_keyed_elements process_sized_elements_and_restrictions :
      SplittableProcessKind

pub record SplittableStage : Type 0 where
  pub splittable_id : StageId
  pub splittable_outputs : List PCollectionId
  pub process_kind : SplittableProcessKind

-- What the trait of a runner transform answers: its id, its output PCollections, the urns of its
-- specs, and whether completing a bundle finishes it as a source.
pub record FlareRunnerTransform : Type 0 where
  pub runner_id : StageId
  pub runner_outputs : List PCollectionId
  pub urns : List String
  pub auto_finishes : Bool

-- A splittable node has a nested graph of nodes.
mutual
  pub data ExecutableNode : Type 0 where
    worker : ExecutableStage → ExecutableNode
    runner : FlareRunnerTransform → ExecutableNode
    splittable : SplittableStage → ExecutableNodes → ExecutableNode

  pub data ExecutableNodes : Type 0 where
    no_nodes : ExecutableNodes
    node_and : ExecutableNode → ExecutableNodes → ExecutableNodes

pub record Edge : Type 0 where
  pub source : ℕ
  pub target : ℕ
  pub weight : ConsumerMetaData

pub record PCollection : Type 0 where
  pub pcollection_coder_id : String
  pub windowing_strategy_id : String

-- The window fn is known by its urn.
pub record WindowingStrategy : Type 0 where
  pub allowed_lateness : ℤ
  pub window_fn : Option String

-- `Components`, as far as it is read.
pub record Components : Type 0 where
  pub pcollections : List (PCollectionId × PCollection)
  pub windowing_strategies : List (String × WindowingStrategy)

-- The node at an index is the one at that place of the list; the edges stand in the order in which
-- the graph gives them.
pub record ExecutableGraph : Type 0 where
  pub nodes : List ExecutableNode
  pub edges : List Edge
  pub components : Components
  pub root_metadata : Option ConsumerMetaData

-- `ExecutableNode::id`
abbrev pub node_id : ExecutableNode → StageId
node_id (worker e) = e.stage_id
node_id (runner r) = r.runner_id
node_id (splittable s nested) = s.splittable_id

-- `ExecutableNode::output_pcols`
abbrev pub output_pcols : ExecutableNode → List PCollectionId
output_pcols (worker e) = e.stage_outputs
output_pcols (runner r) = r.runner_outputs
output_pcols (splittable s nested) = s.splittable_outputs

-- `worker_stages`, with the recursion into a nested graph.
unfoldable mutual
  pub worker_stages : ExecutableNode → List ExecutableStage
  worker_stages (worker e) = e ∷ []
  worker_stages (runner r) = []
  worker_stages (splittable s nested) = all_worker_stages nested

  pub all_worker_stages : ExecutableNodes → List ExecutableStage
  all_worker_stages no_nodes = []
  all_worker_stages (node_and n rest) = worker_stages n ++ all_worker_stages rest

-- `graph[index]`, which panics where there is no node.
unfoldable pub node_at : ℕ → List ExecutableNode → Option ExecutableNode
node_at index [] = none
node_at zero (n ∷ nodes) = some n
node_at (suc index) (n ∷ nodes) = node_at index nodes

-- The metadata of `edges_directed(index, Incoming)` and of `edges_directed(index, Outgoing)`.
unfoldable pub incoming : ℕ → List Edge → List ConsumerMetaData
incoming index [] = []
incoming index (e ∷ edges) =
    if e.target == index then e.weight ∷ incoming index edges else incoming index edges

unfoldable pub outgoing : ℕ → List Edge → List ConsumerMetaData
outgoing index [] = []
outgoing index (e ∷ edges) =
    if e.source == index then e.weight ∷ outgoing index edges else outgoing index edges

abbrev pub produced_ids : List ConsumerMetaData → List PCollectionId
produced_ids [] = []
produced_ids (w ∷ ws) = w.produced_pcol_id ∷ produced_ids ws
