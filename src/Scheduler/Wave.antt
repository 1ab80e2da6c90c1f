-- ===== src/Scheduler/Wave.antt =====
-- How many bundles of a ready stage the loop of `next_nodes` starts.
use flare_db.Base.{
  ℕ, zero, suc, ◌+◌, ◌-◌, ◌≤◌, ◌≡◌, refl, ap, ◌∙◌, true, false, Bool-cases, none, some, List, [],
  ◌∷◌, ◌++◌, inl, inr, arith, if◌then◌else◌, ◌==◌, leb, append_append,
}
use flare_db.Base.Text.{str_eq_refl}
use flare_db.Base.Dict.{get, modify, get-modify}
use flare_db.Watermark.State.{StageId, StageState, WatermarkManager}
use flare_db.Watermark.Manager.{Error, err, maximum_in_flight, queued_bundles}
use flare_db.Watermark.Bundles.{start_refusal, started, start_bundle, stage_is_ready}
use flare_db.Watermark.Bundles.Start.{ready-present, ready-not_refused, start_bundle_ok}
use flare_db.Scheduler.Graph.{ExecutableNode, node_at}
use flare_db.Scheduler.State.{NodeScheduler, Started, start_loop, start_stage}

abbrev one_or_more : ℕ → ℕ
one_or_more n = if n == 0 then 1 else n

-- One bundle, or as many as are queued and fit under the ceiling.
unfoldable pub wave_size : StageState → ℕ
wave_size s =
    let room = s.max_in_flight - s.in_flight in
    one_or_more (if leb s.queued room then s.queued else room)

abbrev pub copies : ℕ → ℕ → ExecutableNode → List (ℕ × ExecutableNode)
copies zero index node = []
copies (suc n) index node = (index, node) ∷ copies n index node

-- While the queue is not empty, only the ceiling refuses one bundle more.
refusal-started :
    (id : StageId) (s : StageState)
    → start_refusal id s ≡ none
    → ((s.queued - 1) == 0) ≡ false
    → start_refusal id (started s)
      ≡ (if leb s.max_in_flight (s.in_flight + 1) then some (maximum_in_flight id) else none)
unfolding start_refusal started
refusal-started id s h q = ground arith

has_room :
    (id : StageId) (s : StageState) → start_refusal id s ≡ none → suc s.in_flight ≤ s.max_in_flight
unfolding start_refusal
has_room id s h = ground arith

get-modify_self :
    (id : StageId) (f : StageState → StageState) (m : List (StageId × StageState)) (s : StageState)
    → get id m ≡ some s
    → get id (modify id f m) ≡ some (f s)
get-modify_self id f m s h = get-modify id id f m ∙ rw (str_eq_refl id, h) refl

-- What the loop has done, from a state of the stage.
abbrev pub IsWave : StageId → ℕ → ExecutableNode → StageState → Started → Started → Type 0
IsWave id index node s w r =
    (t : StageState) × (get id r.manager.stage_map ≡ some t)
    × (t.in_flight ≡ s.in_flight + wave_size s)
    × (t.queued ≡ s.queued - wave_size s)
    × (t.max_in_flight ≡ s.max_in_flight)
    × (r.next ≡ w.next ++ copies (wave_size s) index node)

wave_one :
    (id : StageId) (s : StageState)
    → start_refusal id s ≡ none
    → ((s.queued - 1) == 0) ≡ true
    → wave_size s ≡ 1
unfolding wave_size
wave_one id s h q = let room = has_room id s h in ground (arith, room)

wave_full :
    (id : StageId) (s : StageState)
    → start_refusal id s ≡ none
    → ((s.queued - 1) == 0) ≡ false
    → leb s.max_in_flight (s.in_flight + 1) ≡ true
    → wave_size s ≡ 1
unfolding wave_size
wave_full id s h q f = let room = has_room id s h in ground (arith, room)

wave_more :
    (id : StageId) (s : StageState)
    → start_refusal id s ≡ none
    → ((s.queued - 1) == 0) ≡ false
    → leb s.max_in_flight (s.in_flight + 1) ≡ false
    → wave_size s ≡ suc (wave_size (started s))
unfolding wave_size started
wave_more id s h q f = let room = has_room id s h in ground (arith, room)

started_parts :
    (s : StageState)
    → ((started s).in_flight ≡ s.in_flight + 1)
      × ((started s).queued ≡ s.queued - 1)
      × ((started s).max_in_flight ≡ s.max_in_flight)
unfolding started
started_parts s = (refl, refl, refl)

queued_at :
    (m : WatermarkManager) (id : StageId) (s : StageState)
    → get id m.stage_map ≡ some s
    → queued_bundles m id ≡ s.queued
unfolding queued_bundles
queued_at m id s g = rw (queued_bundles, g) refl

start_bundle_refused :
    (m : WatermarkManager) (id : StageId) (s : StageState) (e : Error)
    → get id m.stage_map ≡ some s
    → start_refusal id s ≡ some e
    → start_bundle m id ≡ err e
unfolding start_bundle
start_bundle_refused m id s e g h = rw (start_bundle, g, h) refl

-- The manager and the list after one bundle more.
abbrev with_one : StageId → ℕ → ExecutableNode → Started → Started
with_one id index node w = record {
  manager = record (w.manager) { stage_map = modify id started w.manager.stage_map };
  next = w.next ++ ((index, node) ∷ []);
}

with_one-IsWave :
    (id : StageId) (index : ℕ) (node : ExecutableNode) (w : Started) (s : StageState)
    → get id w.manager.stage_map ≡ some s
    → wave_size s ≡ 1
    → IsWave id index node s w (with_one id index node w)
with_one-IsWave id index node w s g one =
    let parts = started_parts s in
    (
      started s,
      get-modify_self id started w.manager.stage_map s g,
      parts.0 ∙ rw one refl,
      parts.1 ∙ rw one refl,
      parts.2,
      rw one refl,
    )

-- A wave of the started stage after one bundle is a wave of the stage.
after_one-IsWave :
    (id : StageId) (index : ℕ) (node : ExecutableNode) (w r : Started) (s : StageState)
    → wave_size s ≡ suc (wave_size (started s))
    → IsWave id index node (started s) (with_one id index node w) r
    → IsWave id index node s w r
after_one-IsWave id index node w r s more (t, g, flight, queue, ceiling, list) =
    let parts = started_parts s in
    (
      t,
      g,
      omega (arith, flight, more, parts.0),
      omega (arith, queue, more, parts.1),
      ceiling ∙ parts.2,
      list
          ∙ append_append w.next ((index, node) ∷ []) (copies (wave_size (started s)) index node)
          ∙ rw more refl,
    )

queue_after :
    (id : StageId) (s : StageState) (m : WatermarkManager)
    → get id m.stage_map ≡ some s
    → (queued_bundles (record m { stage_map = modify id started m.stage_map }) id == 0)
      ≡ ((s.queued - 1) == 0)
queue_after id s m g =
    let parts = started_parts s in
    ap (λ n. n == 0)
      (queued_at (record m { stage_map = modify id started m.stage_map }) id (started s)
          (get-modify_self id started m.stage_map s g)
        ∙ parts.1)

start_loop-IsWave :
    (fuel : ℕ) (id : StageId) (index : ℕ) (node : ExecutableNode) (w : Started) (s : StageState)
    → get id w.manager.stage_map ≡ some s
    → start_refusal id s ≡ none
    → s.queued ≤ fuel
    → IsWave id index node s w (start_loop (suc fuel) id index node w)
unfolding start_loop
start_loop-IsWave zero id index node w s g h enough =
    let last : ((s.queued - 1) == 0) ≡ true = ground arith in
    rw (start_loop, start_bundle_ok w.manager id s g h, queue_after id s w.manager g, last)
      (with_one-IsWave id index node w s g (wave_one id s h last))
start_loop-IsWave (suc fuel) id index node w s g h enough =
    let one = with_one id index node w in
    let g' : get id one.manager.stage_map ≡ some (started s) =
      get-modify_self id started w.manager.stage_map s g in
    elim (Bool-cases ((s.queued - 1) == 0)) [
      | inl t ↦
          rw (start_loop, start_bundle_ok w.manager id s g h, queue_after id s w.manager g, t)
            (with_one-IsWave id index node w s g (wave_one id s h t))
      | inr f ↦ elim (Bool-cases (leb s.max_in_flight (s.in_flight + 1))) [
        | inl full ↦
            let refused =
              start_bundle_refused one.manager id (started s) (maximum_in_flight id) g'
                (refusal-started id s h f ∙ rw full refl) in
            rw
              (
                start_loop,
                start_bundle_ok w.manager id s g h,
                queue_after id s w.manager g,
                f,
                refused,
              )
              (with_one-IsWave id index node w s g (wave_full id s h f full))
        | inr room ↦
            let again : start_refusal id (started s) ≡ none =
              refusal-started id s h f ∙ rw room refl in
            let parts = started_parts s in
            let shorter : (started s).queued ≤ fuel = omega (arith, parts.1, enough) in
            rw (start_loop, start_bundle_ok w.manager id s g h, queue_after id s w.manager g, f)
              (after_one-IsWave id index node w (start_loop (suc fuel) id index node one) s
                (wave_more id s h f room)
                (start_loop-IsWave fuel id index node one (started s) g' again shorter))
      ]
    ]

-- The same for a stage of the graph that no check refuses.
pub start_stage-IsWave' :
    (s : NodeScheduler) (stage : StageId) (index : ℕ) (node : ExecutableNode) (w : Started)
    (state : StageState)
    → get stage w.manager.stage_map ≡ some state
    → start_refusal stage state ≡ none
    → get stage s.index_of ≡ some index
    → node_at index s.graph.nodes ≡ some node
    → IsWave stage index node state w (start_stage s stage w)
unfolding start_stage
start_stage-IsWave' s stage index node w state g allowed i n =
    rw (start_stage, i, n, queued_at w.manager stage state g)
      (start_loop-IsWave state.queued stage index node w state g allowed (omega arith))

-- A stage of the graph that is ready, also one that has never completed, gets one bundle, or as many
-- as its queue holds and its ceiling leaves room for if that is more, and no other; all of them are
-- bundles of its own node.
pub start_stage-IsWave :
    (s : NodeScheduler) (stage : StageId) (index : ℕ) (node : ExecutableNode) (w : Started)
    → stage_is_ready w.manager stage ≡ true
    → get stage s.index_of ≡ some index
    → node_at index s.graph.nodes ≡ some node
    → (state : StageState) × (get stage w.manager.stage_map ≡ some state)
      × IsWave stage index node state w (start_stage s stage w)
start_stage-IsWave s stage index node w ready i n =
    let (state, g, r) = ready-present w.manager stage ready in
    (
      state,
      g,
      start_stage-IsWave' s stage index node w state g (ready-not_refused stage state r) i n,
    )
