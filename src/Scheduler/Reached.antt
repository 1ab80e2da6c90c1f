-- ===== src/Scheduler/Reached.antt =====
-- Every state of a scheduler is one that a watermark manager reaches by its own methods.
use flare_db.Base.{
  ℕ, zero, suc, ◌≡◌, refl, subst, Bool, true, false, Bool-cases, Option, Option-cases, none, some,
  List, [], ◌∷◌, inl, inr, if◌then◌else◌, ◌==◌, ◌⊎◌, ◌++◌, none≢some, some_eq,
}
use flare_db.Base.Dict.{get}
use flare_db.Timers.{TimerEntry, is_event_time}
use flare_db.Watermark.State.{Timestamp, StageId, StageKind, WatermarkManager}
use flare_db.Watermark.Manager.{
  Error, Result, ok, err, new, add_stage, set_source_auto_finish, set_stage_kind,
  set_required_watermark, set_max_in_flight, report_source_finished, mark_rerun, queued_bundles,
}
use flare_db.Watermark.Bundles.{start_bundle, ready_stages, complete_bundle_with_min_and_input}
use flare_db.Watermark.Refresh.{refresh}
use flare_db.Watermark.History.{Built, Step, Reach}
use flare_db.Watermark.History.Reached.{IsWellFormed}
use flare_db.Watermark.History.Start.{Reach-IsWellFormed}
use flare_db.Scheduler.Graph.{
  ExecutableNode, worker, runner, splittable, ExecutableGraph, node_id, node_at,
}
use flare_db.Scheduler.Setup.{
  or_unchanged, gate, gate_node, add_node, register_node, register_nodes, from_executable_graph,
  raise_ceiling, raise_ceilings, is_sized, is_event_stream, aggregation_required_watermark,
  time_sorted_input_required_watermark,
}
use flare_db.Scheduler.State.{
  NodeScheduler, new_scheduler, Started, start_loop, start_stage, start_stages, next_nodes,
  finishes_source, complete_stage, completed_or, mark_complete_with_min_and_input, Promoted,
  promote, promote_each, promote_due_timers, is_due_for, promote_event_each,
  promote_due_event_time_timers, nothing_promoted,
}

-- A change whose error is dropped keeps what the change keeps.
or_unchanged-keeps :
    (P : WatermarkManager → Type 0) (m : WatermarkManager) (r : Result WatermarkManager)
    → P m
    → ((n : WatermarkManager) → r ≡ ok n → P n)
    → P (or_unchanged m r)
or_unchanged-keeps P m (ok n) p keep = keep n refl
or_unchanged-keeps P m (err e) p keep = p

gate-Built :
    (id : StageId) (kind : StageKind) (t : Timestamp) (m : WatermarkManager)
    → Built m
    → Built (gate id kind t m)
unfolding gate
gate-Built id kind t m b =
    let gated = or_unchanged m (set_stage_kind m id kind) in
    or_unchanged-keeps Built gated (set_required_watermark gated id t)
      (or_unchanged-keeps Built m (set_stage_kind m id kind) b
        λ n h. Built.stage_kind m n id kind b h)
      λ n h.
        Built.required gated n id t
          (or_unchanged-keeps Built m (set_stage_kind m id kind) b
            λ k g. Built.stage_kind m k id kind b g)
          h

if-Reach : (b : Bool) (m n : WatermarkManager) → Reach m → Reach n → Reach (if b then m else n)
if-Reach true m n p q = p
if-Reach false m n p q = q

if-Built : (b : Bool) (m n : WatermarkManager) → Built m → Built n → Built (if b then m else n)
if-Built true m n p q = p
if-Built false m n p q = q

add_node-Built :
    (g : ExecutableGraph) (index : ℕ) (node : ExecutableNode) (m : WatermarkManager)
    → Built m
    → Built (add_node g index node m)
unfolding add_node
add_node-Built g index node m b =
    let added : WatermarkManager = add_stage m (node_id node) _ _ _ in
    let stage : Built added = Built.stage m added (node_id node) _ _ _ b refl in
    if-Built (is_event_stream node) _ added
      (or_unchanged-keeps Built added (set_source_auto_finish added (node_id node) false) stage
        λ n h. Built.auto_finish added n (node_id node) false stage h)
      stage

gate_node-Built :
    (id : StageId) (required sorted : Option Timestamp) (m : WatermarkManager)
    → Built m
    → Built (gate_node id required sorted m)
gate_node-Built id (some t) sorted m b = gate-Built id _ t m b
gate_node-Built id none (some t) m b = gate-Built id _ t m b
gate_node-Built id none none m b = b

register_node-Built :
    (g : ExecutableGraph) (index : ℕ) (node : ExecutableNode) (m : WatermarkManager)
    → Built m
    → Built (register_node g index node m)
unfolding register_node
register_node-Built g index node m b =
    gate_node-Built (node_id node) (aggregation_required_watermark node g index)
      (time_sorted_input_required_watermark node g index) (add_node g index node m)
      (add_node-Built g index node m b)

register_nodes-Built :
    (g : ExecutableGraph) (index : ℕ) (nodes : List ExecutableNode) (m : WatermarkManager)
    → Built m
    → Built (register_nodes g index nodes m)
unfolding register_nodes
register_nodes-Built g index [] m b = b
register_nodes-Built g index (node ∷ nodes) m b =
    register_nodes-Built g (suc index) nodes _ (register_node-Built g index node m b)

from_executable_graph-Built : (g : ExecutableGraph) → Built (from_executable_graph g)
unfolding from_executable_graph
from_executable_graph-Built g = register_nodes-Built g 0 g.nodes new (Built.empty new refl)

raise_ceiling-Built :
    (concurrency : ℕ) (node : ExecutableNode) (m : WatermarkManager)
    → Built m
    → Built (raise_ceiling concurrency node m)
raise_ceiling-Built concurrency (worker e) m b = b
raise_ceiling-Built concurrency (runner r) m b = b
raise_ceiling-Built concurrency (splittable s nested) m b =
    if-Built (is_sized s.process_kind) _ m
      (or_unchanged-keeps Built m (set_max_in_flight m s.splittable_id concurrency) b
        λ n h. Built.ceiling m n s.splittable_id concurrency b h)
      b

raise_ceilings-Built :
    (concurrency : ℕ) (nodes : List ExecutableNode) (m : WatermarkManager)
    → Built m
    → Built (raise_ceilings concurrency nodes m)
unfolding raise_ceilings
raise_ceilings-Built concurrency [] m b = b
raise_ceilings-Built concurrency (node ∷ nodes) m b =
    raise_ceilings-Built concurrency nodes _ (raise_ceiling-Built concurrency node m b)

-- A manager that `new_scheduler` sets up.
pub new_scheduler-Built :
    (concurrency : ℕ) (g : ExecutableGraph) → Built (new_scheduler concurrency g).watermarks
unfolding new_scheduler
new_scheduler-Built concurrency g =
    raise_ceilings-Built concurrency g.nodes (from_executable_graph g)
      (from_executable_graph-Built g)

pub Result-cases {ℓ} :
    {A : Type ℓ} (r : Result A) → ((a : A) × (r ≡ ok a)) ⊎ ((e : Error) × (r ≡ err e))
Result-cases (ok a) = inl (a, refl)
Result-cases (err e) = inr (e, refl)

start_loop-Reach :
    (fuel : ℕ) (stage : StageId) (index : ℕ) (node : ExecutableNode) (w : Started)
    → Reach w.manager
    → Reach (start_loop fuel stage index node w).manager
unfolding start_loop
start_loop-Reach zero stage index node w r = r
start_loop-Reach (suc fuel) stage index node w r =
    elim (Result-cases (start_bundle w.manager stage)) [
      | inr (e, h) ↦ rw (start_loop, h) r
      | inl (m, h) ↦
          let one : Started = record { manager = m; next = w.next ++ ((index, node) ∷ []) } in
          let reached : Reach m = Reach.next w.manager m r (Step.start stage h) in
          elim (Bool-cases (queued_bundles m stage == 0)) [
            | inl t ↦ rw (start_loop, h, t) reached
            | inr f ↦ rw (start_loop, h, f) (start_loop-Reach fuel stage index node one reached)
          ]
    ]

start_stage-Reach :
    (s : NodeScheduler) (stage : StageId) (w : Started)
    → Reach w.manager
    → Reach (start_stage s stage w).manager
unfolding start_stage
start_stage-Reach s stage w r = elim (Option-cases (get stage s.index_of)) [
  | inl n ↦ rw (start_stage, n) r
  | inr (index, h) ↦ elim (Option-cases (node_at index s.graph.nodes)) [
    | inl n ↦ rw (start_stage, h, n) r
    | inr (node, g) ↦
        rw (start_stage, h, g)
          (start_loop-Reach (suc (queued_bundles w.manager stage)) stage index node w r)
  ]
]

start_stages-Reach :
    (s : NodeScheduler) (ready : List StageId) (w : Started)
    → Reach w.manager
    → Reach (start_stages s ready w).manager
unfolding start_stages
start_stages-Reach s [] w r = r
start_stages-Reach s (stage ∷ ready) w r =
    start_stages-Reach s ready (start_stage s stage w) (start_stage-Reach s stage w r)

refresh-Reach : (m : WatermarkManager) → Reach m → Reach (refresh m).0
refresh-Reach m r = Reach.next m (refresh m).0 r (Step.refreshed refl)

pub next_nodes-Reach : (s : NodeScheduler) → Reach s.watermarks → Reach (next_nodes s).1.watermarks
unfolding next_nodes
next_nodes-Reach s r =
    start_stages-Reach s (ready_stages (refresh s.watermarks).0) _ (refresh-Reach s.watermarks r)

completed_or-Reach :
    (m : WatermarkManager) (result : Result (WatermarkManager × List StageId))
    → Reach m
    → ((n : WatermarkManager) (ready : List StageId) → result ≡ ok (n, ready) → Reach n)
    → Reach (completed_or m result)
completed_or-Reach m (ok (n, ready)) r keep = keep n ready refl
completed_or-Reach m (err e) r keep = r

pub complete_stage-Reach :
    (m : WatermarkManager) (stage : StageId) (min : Option Timestamp) (count : Option ℕ)
    → Reach m
    → Reach (complete_stage m stage min count)
unfolding complete_stage
complete_stage-Reach m stage min count r =
    let reported =
      if finishes_source m stage then or_unchanged m (report_source_finished m stage) else m in
    let known : Reach reported =
      if-Reach (finishes_source m stage) _ m
        (or_unchanged-keeps Reach m (report_source_finished m stage) r
          λ n h. Reach.next m n r (Step.finish stage h))
        r in
    refresh-Reach _ (
      completed_or-Reach reported (complete_bundle_with_min_and_input reported stage min count)
        known λ n ready h. Reach.next reported n known (Step.complete stage min count ready h))

promote-Reach :
    (stage : StageId) (e : TimerEntry) (p : Promoted)
    → Reach p.rearmed
    → Reach (promote stage e p).rearmed
unfolding promote
promote-Reach stage e p r =
    or_unchanged-keeps Reach p.rearmed (mark_rerun p.rearmed stage) r
      λ n h. Reach.next p.rearmed n r (Step.rerun stage h)

promote_each-Reach :
    (s : NodeScheduler) (due : List TimerEntry) (p : Promoted)
    → Reach p.rearmed
    → Reach (promote_each s due p).rearmed
unfolding promote_each
promote_each-Reach s [] p r = r
promote_each-Reach s (e ∷ due) p r =
    elim (Option-cases (get e.key.transform_id s.transform_to_stage)) [
      | inl n ↦ rw (promote_each, n) (promote_each-Reach s due p r)
      | inr (stage, h) ↦
          rw (promote_each, h)
            (promote_each-Reach s due (promote stage e p) (promote-Reach stage e p r))
    ]

promote_event_each-Reach :
    (s : NodeScheduler) (timers : List TimerEntry) (p : Promoted)
    → Reach p.rearmed
    → Reach (promote_event_each s timers p).rearmed
unfolding promote_event_each
promote_event_each-Reach s [] p r = r
promote_event_each-Reach s (e ∷ timers) p r = elim (Bool-cases (is_event_time e.domain)) [
  | inr f ↦ rw (promote_event_each, f) (promote_event_each-Reach s timers p r)
  | inl t ↦ elim (Option-cases (get e.key.transform_id s.transform_to_stage)) [
    | inl n ↦ rw (promote_event_each, t, n) (promote_event_each-Reach s timers p r)
    | inr (stage, h) ↦ elim (Bool-cases (is_due_for p.rearmed stage e)) [
      | inr f ↦ rw (promote_event_each, t, h, f) (promote_event_each-Reach s timers p r)
      | inl d ↦
          rw (promote_event_each, t, h, d)
            (promote_event_each-Reach s timers (promote stage e p) (promote-Reach stage e p r))
    ]
  ]
]

-- What a job does with a scheduler: it is made from a graph, and then its methods are called, and
-- through it those of its watermark manager, in any order.
pub data Scheduled : NodeScheduler → Type 0 where
  made : (concurrency : ℕ) (g : ExecutableGraph) → Scheduled (new_scheduler concurrency g)
  polled : (s : NodeScheduler) → Scheduled s → Scheduled (next_nodes s).1
  completed :
      (s t : NodeScheduler) (index : ℕ) (min : Option Timestamp) (count : Option ℕ)
      → Scheduled s
      → mark_complete_with_min_and_input s index min count ≡ some t
      → Scheduled t
  promoted :
      (s : NodeScheduler) (due : List TimerEntry)
      → Scheduled s
      → Scheduled (promote_due_timers s due).1
  event_promoted :
      (s : NodeScheduler) (timers : List TimerEntry)
      → Scheduled s
      → Scheduled (promote_due_event_time_timers s timers).1
  mutated :
      (s : NodeScheduler) (m : WatermarkManager)
      → Scheduled s
      → Step s.watermarks m
      → Scheduled (record s { watermarks = m })

completed-Reach :
    (s t : NodeScheduler) (index : ℕ) (min : Option Timestamp) (count : Option ℕ)
    → Reach s.watermarks
    → mark_complete_with_min_and_input s index min count ≡ some t
    → Reach t.watermarks
unfolding mark_complete_with_min_and_input
completed-Reach s t index min count r h = elim (Option-cases (node_at index s.graph.nodes)) [
  | inl n ↦ absurd (none≢some none t refl (rw (n, mark_complete_with_min_and_input) at h))
  | inr (node, g) ↦
      let same = some_eq _ _ (rw (g, mark_complete_with_min_and_input) at h) in
      subst (λ (x : NodeScheduler). Reach x.watermarks) same
        (complete_stage-Reach s.watermarks (node_id node) min count r)
]

pub Scheduled-Reach : (s : NodeScheduler) → Scheduled s → Reach s.watermarks
unfolding promote_due_timers promote_due_event_time_timers
Scheduled-Reach _ (made concurrency g) = Reach.built _ (new_scheduler-Built concurrency g)
Scheduled-Reach _ (polled s c) = next_nodes-Reach s (Scheduled-Reach s c)
Scheduled-Reach t (completed s _ index min count c h) =
    completed-Reach s t index min count (Scheduled-Reach s c) h
Scheduled-Reach _ (promoted s due c) =
    promote_each-Reach s due (nothing_promoted s) (Scheduled-Reach s c)
Scheduled-Reach _ (event_promoted s timers c) =
    promote_event_each-Reach s timers (nothing_promoted s) (Scheduled-Reach s c)
Scheduled-Reach _ (mutated s m c step) = Reach.next s.watermarks m (Scheduled-Reach s c) step

-- However a scheduler is made and used, its watermark manager is well-formed: the watermarks of its
-- stages are sound, and their eligibility state is consistent.
pub Scheduled-IsWellFormed : (s : NodeScheduler) → Scheduled s → IsWellFormed s.watermarks
Scheduled-IsWellFormed s c = Reach-IsWellFormed s.watermarks (Scheduled-Reach s c)
