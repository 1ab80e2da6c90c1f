-- ===== src/Scheduler/Waves.antt =====
-- The bundles that the loops of `next_nodes` in flaredb/src/engine/scheduler.rs start.
use flare_db.Base.{
  ℕ, zero, suc, ◌+◌, ◌-◌, ◌≡◌, refl, sym, ap, ◌∙◌, inl, inr, Bool, true, false, ◌||◌, true≢false,
  Bool-cases, Option, none, some, some_eq, none≢some, Option-cases, List, [], ◌∷◌, ◌++◌,
  append_append, append-nil, ◌==◌, arith,
}
use flare_db.Base.Text.{str_eq, str_eq→eq, str_eq_refl, contains}
use flare_db.Base.Dict.{get, get-modify}
use flare_db.Watermark.State.{StageId, StageState, WatermarkManager}
use flare_db.Watermark.Manager.{Result, ok, err, queued_bundles}
use flare_db.Watermark.Bundles.{started, start_bundle, stage_is_ready}
use flare_db.Watermark.Bundles.Start.{ready-present, ready-not_refused, start_bundle-inversion}
use flare_db.Scheduler.Graph.{ExecutableNode, node_at}
use flare_db.Scheduler.State.{NodeScheduler, Started, start_loop, start_stage, start_stages}
use flare_db.Scheduler.Wave.{wave_size, copies, start_stage-IsWave'}
use flare_db.Scheduler.Ready.{AllReady}

-- The node of a stage, with its index.
unfoldable pub node_of : NodeScheduler → StageId → Option (ℕ × ExecutableNode)
unfolding node_at
node_of s stage = elim (get stage s.index_of) [
  | none ↦ none
  | some index ↦ elim (node_at index s.graph.nodes) [ none ↦ none | some node ↦ some (index, node) ]
]

-- The bundles of one stage in a state of the manager, and those of a list of stages in that state.
unfoldable pub wave_of : Option (ℕ × ExecutableNode) → Option StageState → List (ℕ × ExecutableNode)
unfolding wave_size
wave_of (some (index, node)) (some state) = copies (wave_size state) index node
wave_of _ _ = []

unfoldable pub waves : NodeScheduler → WatermarkManager → List StageId → List (ℕ × ExecutableNode)
unfolding node_of wave_of
waves s m [] = []
waves s m (stage ∷ ready) = wave_of (node_of s stage) (get stage m.stage_map) ++ waves s m ready

start_stage_known :
    (s : NodeScheduler) (stage : StageId) (index : ℕ) (node : ExecutableNode)
    → node_of s stage ≡ some (index, node)
    → (get stage s.index_of ≡ some index) × (node_at index s.graph.nodes ≡ some node)
unfolding node_of
start_stage_known s stage index node h = elim (Option-cases (get stage s.index_of)) [
  | inl e ↦ absurd (none≢some none _ refl (rw (e, node_of) at h))
  | inr (i, e) ↦ elim (Option-cases (node_at i s.graph.nodes)) [
    | inl n ↦ absurd (none≢some none _ refl (rw (e, n, node_of) at h))
    | inr (n, p) ↦
        let same = some_eq _ _ (rw (e, p, node_of) at h) in
        let i_index : i ≡ index = λ k. (same k).0 in
        let n_node : n ≡ node = λ k. (same k).1 in
        (e ∙ ap some i_index, ap (λ j. node_at j s.graph.nodes) (sym i_index) ∙ p ∙ ap some n_node)
  ]
]

start_stage_unknown :
    (s : NodeScheduler) (stage : StageId) (w : Started)
    → node_of s stage ≡ none
    → start_stage s stage w ≡ w
unfolding node_of start_stage
start_stage_unknown s stage w h = elim (Option-cases (get stage s.index_of)) [
  | inl e ↦ rw (e, start_stage) refl
  | inr (i, e) ↦ elim (Option-cases (node_at i s.graph.nodes)) [
    | inl n ↦ rw (e, n, start_stage) refl
    | inr (n, p) ↦ absurd (none≢some none _ refl (sym (rw (e, p, node_of) at h)))
  ]
]

-- The loop over one stage changes no other stage.
start_loop_other :
    (fuel : ℕ) (stage : StageId) (index : ℕ) (node : ExecutableNode) (w : Started) (id : StageId)
    → str_eq stage id ≡ false
    → get id (start_loop fuel stage index node w).manager.stage_map ≡ get id w.manager.stage_map
unfolding start_loop
start_loop_other zero stage index node w id h = refl
start_loop_other (suc fuel) stage index node w id h =
    by_start (start_bundle w.manager stage) refl
      (λ one. start_loop_other fuel stage index node one id h)
  where
    by_start :
        (r : Result WatermarkManager)
        → start_bundle w.manager stage ≡ r
        → ((one : Started)
            → get id (start_loop fuel stage index node one).manager.stage_map
              ≡ get id one.manager.stage_map)
        → get id (start_loop (suc fuel) stage index node w).manager.stage_map
          ≡ get id w.manager.stage_map
    by_start (err e) p again = rw (p, start_loop) refl
    by_start (ok m) p again =
        let (t, g, allowed, e) = start_bundle-inversion w.manager m stage p in
        let one : Started = record { manager = m; next = w.next ++ ((index, node) ∷ []) } in
        let kept : get id m.stage_map ≡ get id w.manager.stage_map =
          ap (λ (n : WatermarkManager). get id n.stage_map) e
          ∙ get-modify stage id started w.manager.stage_map
          ∙ rw h refl in
        elim (Bool-cases (queued_bundles m stage == 0)) [
          | inl last ↦ rw (p, last, start_loop) kept
          | inr more ↦ rw (p, more, start_loop) (again one ∙ kept)
        ]

start_stage_other :
    (s : NodeScheduler) (stage : StageId) (w : Started) (id : StageId)
    → str_eq stage id ≡ false
    → get id (start_stage s stage w).manager.stage_map ≡ get id w.manager.stage_map
unfolding start_stage
start_stage_other s stage w id h = elim (Option-cases (get stage s.index_of)) [
  | inl e ↦ rw (e, start_stage) refl
  | inr (i, e) ↦ elim (Option-cases (node_at i s.graph.nodes)) [
    | inl n ↦ rw (e, n, start_stage) refl
    | inr (n, p) ↦
        rw (e, p, start_stage)
          (start_loop_other (suc (queued_bundles w.manager stage)) stage i n w id h)
  ]
]

-- The stage in another state of the manager, with its wave more in flight and less in its queue.
abbrev pub IsAdvanced : StageId → StageState → WatermarkManager → Type 0
IsAdvanced id before n =
    (after : StageState) × (get id n.stage_map ≡ some after)
    × (after.in_flight ≡ before.in_flight + wave_size before)
    × (after.queued ≡ before.queued - wave_size before)

-- What one turn of the loop over the ready stages does.
start_stage_turn :
    (s : NodeScheduler) (m : WatermarkManager) (stage : StageId) (w : Started)
    → stage_is_ready m stage ≡ true
    → get stage w.manager.stage_map ≡ get stage m.stage_map
    → ((start_stage s stage w).next ≡ w.next ++ wave_of (node_of s stage) (get stage m.stage_map))
      × ((index : ℕ) (node : ExecutableNode) (before : StageState)
          → node_of s stage ≡ some (index, node)
          → get stage m.stage_map ≡ some before
          → IsAdvanced stage before (start_stage s stage w).manager)
unfolding wave_of
start_stage_turn s m stage w ready same =
    let (state, g, r) = ready-present m stage ready in
    elim (Option-cases (node_of s stage)) [
      | inl unknown ↦ (
        ap (λ (v : Started). v.next) (start_stage_unknown s stage w unknown)
            ∙ rw unknown (sym (append-nil w.next)),
        λ index node before h. absurd (none≢some none _ refl (sym unknown ∙ h)),
      )
      | inr ((i, n), known) ↦
          let (at_index, at_node) = start_stage_known s stage i n known in
          let (after, found, flight, queue, ceiling, list) =
            start_stage-IsWave' s stage i n w state (same ∙ g) (ready-not_refused stage state r)
              at_index at_node in
          (
            rw (known, g) list,
            λ index node before h b.
                let state_before : state ≡ before = some_eq _ _ (sym g ∙ b) in
                rw (← state_before) (after, found, flight, queue),
          )
    ]

pub start_stages_each :
    (s : NodeScheduler) (m : WatermarkManager) (ready : List StageId) (w : Started)
    → AllReady m ready
    → ((id : StageId) → contains ready id ≡ true → get id w.manager.stage_map ≡ get id m.stage_map)
    → ((start_stages s ready w).next ≡ w.next ++ waves s m ready)
      × ((id : StageId)
          → contains ready id ≡ false
          → get id (start_stages s ready w).manager.stage_map ≡ get id w.manager.stage_map)
      × ((id : StageId) (index : ℕ) (node : ExecutableNode) (before : StageState)
          → contains ready id ≡ true
          → node_of s id ≡ some (index, node)
          → get id m.stage_map ≡ some before
          → IsAdvanced id before (start_stages s ready w).manager)
unfolding start_stages waves AllReady contains
start_stages_each s m [] w r same = (
  sym (append-nil w.next),
  λ id h. refl,
  λ id index node before h. absurd (true≢false false h refl),
)
start_stages_each s m (stage ∷ ready) w (new, now, r) same =
    let one = start_stage s stage w in
    let here = same stage (rw (str_eq_refl stage) refl) in
    let turn = start_stage_turn s m stage w now here in
    let apart : (id : StageId) → contains ready id ≡ true → str_eq stage id ≡ false = λ id c.
      elim (Bool-cases (str_eq stage id)) [
        | inl e ↦
            absurd (
              true≢false (contains ready stage) (ap (contains ready) (str_eq→eq stage id e) ∙ c)
                new)
        | inr e ↦ e
      ] in
    let rest = start_stages_each s m ready one r λ id c.
      start_stage_other s stage w id (apart id c)
      ∙ same id (or_right (str_eq stage id) (contains ready id) c) in
    (
      rest.0 ∙ ap (λ l. l ++ waves s m ready) turn.0 ∙ append_append w.next _ (waves s m ready),
      λ id h.
          let (other, out) = or_not (str_eq stage id) (contains ready id) h in
          rest.1 id out ∙ start_stage_other s stage w id other,
      λ id index node before h known b. elim (Bool-cases (contains ready id)) [
        | inl later ↦ rest.2 id index node before later known b
        | inr out ↦
            let is_stage : stage ≡ id =
              str_eq→eq stage id (or_first (str_eq stage id) (contains ready id) h out) in
            let (after, found, flight, queue) =
              turn.1 index node before (ap (node_of s) is_stage ∙ known)
                (ap (λ j. get j m.stage_map) is_stage ∙ b) in
            (
              after,
              rest.1 id out ∙ ap (λ j. get j one.manager.stage_map) (sym is_stage) ∙ found,
              flight,
              queue,
            )
      ],
    )
  where
    or_right : (a b : Bool) → b ≡ true → (a || b) ≡ true
    or_right a b h = ground arith

    or_not : (a b : Bool) → (a || b) ≡ false → (a ≡ false) × (b ≡ false)
    or_not a b h = ground arith

    or_first : (a b : Bool) → (a || b) ≡ true → b ≡ false → a ≡ true
    or_first a b h k = ground arith
