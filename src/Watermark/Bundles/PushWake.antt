-- ===== src/Watermark/Bundles/PushWake.antt =====
-- The push-wake of `complete_bundle` in flaredb/src/engine/watermark.rs.
use flare_db.Base.{
  ℕ, ◌<◌, ◌≡◌, ap, sym, subst, inl, inr, ◌⊎◌, ◌≤ℤ◌, Bool, true, false, Bool-cases, Option, none,
  some, Option-cases, List, [], ◌∷◌, ◌==◌, min_ℤ_left, min_ℤ_right, ≤ℤ_trans, some_eq, same_value,
  arith,
}
use flare_db.Base.Text.{
  str_eq, str_eq→eq, str_eq_refl, contains, contains-set_insert, contains-set_remove, sort, dedup,
}
use flare_db.Base.Dict.{get}
use flare_db.Watermark.State.{Timestamp, StageId, PCollectionId, StageState, WatermarkManager}
use flare_db.Watermark.Manager.{Error, ok, err≢ok, ok_eq, consumers_of}
use flare_db.Watermark.Bundles.{
  Wake, wake_main, wake_side, wake_consumers, wake_outputs, min_with, finished,
  propagates_empty_input, propagated_min, complete_bundle_with_min_and_input,
}
use flare_db.Watermark.Bundles.Loops.{
  At, wake_consumers_keeps, wake_consumers_reaches, wake_outputs_keeps, wake_consumers-consumers,
}

-- The stage no longer waits for the first output of the PCollection, and either it has closed its
-- time-sorted input, or the PCollection is pending and its minimum timestamp clamps the stage.
pub record IsWoken (pc : PCollectionId) (min : Option Timestamp) (t : StageState) : Type 0 where
  pub produced : contains t.unproduced pc ≡ false
  pub appended :
      (t.time_sorted_input_closed ≡ true)
      ⊎ ((contains t.pending pc ≡ true) × ((x : Timestamp) → min ≡ some x → t.pending_min ≤ℤ x))

min_with-le :
    (t : Timestamp) (o : Option Timestamp) (x : Timestamp) → o ≡ some x → min_with t o ≤ℤ x
min_with-le t none x e = cc
min_with-le t (some y) x e = rw (some_eq y x e) (min_ℤ_right t x)

min_with-le_old : (t : Timestamp) (o : Option Timestamp) → min_with t o ≤ℤ t
min_with-le_old t none = omega arith
min_with-le_old t (some y) = min_ℤ_left t y

wake_main-IsWoken :
    (pc : PCollectionId) (empty : Bool) (min : Option Timestamp) (s : StageState)
    → IsWoken pc min (wake_main pc empty min s)
unfolding wake_main
wake_main-IsWoken pc empty min s = record {
  produced = rw (contains-set_remove, str_eq_refl);
  appended = elim (Bool-cases s.time_sorted_input_closed) [
    | inl c ↦ inl c
    | inr c ↦ inr (rw (c, contains-set_insert, str_eq_refl), rw c (min_with-le s.pending_min min))
  ];
}

wake_main_keeps :
    (pc pc' : PCollectionId) (empty : Bool) (min : Option Timestamp) (s : StageState)
    → IsWoken pc min s
    → IsWoken pc min (wake_main pc' empty min s)
unfolding wake_main
wake_main_keeps pc pc' empty min s w = record {
  produced = ground (arith, contains-set_remove pc' pc s.unproduced, w.produced);
  appended = elim w.appended [
    | inl c ↦ inl c
    | inr (p, le) ↦ elim (Bool-cases s.time_sorted_input_closed) [
      | inl c ↦ inl c
      | inr c ↦ inr (
        rw c (ground (arith, contains-set_insert pc' pc s.pending)),
        λ x e. rw c (≤ℤ_trans _ s.pending_min x (min_with-le_old s.pending_min min) (le x e)),
      )
    ]
  ];
}

wake_side_keeps :
    (pc pc' : PCollectionId) (empty : Bool) (min : Option Timestamp) (s : StageState)
    → IsWoken pc min s
    → IsWoken pc min (wake_side pc' empty s)
unfolding wake_side
wake_side_keeps pc pc' true min s w = record { produced = w.produced; appended = w.appended }
wake_side_keeps pc pc' false min s w = record { produced = w.produced; appended = w.appended }

-- What one output of the bundle establishes at its consumer, the later outputs keep.
wake_outputs-IsWoken :
    (pc : PCollectionId) (c : StageId) (empty : Bool) (min : Option Timestamp)
    (os : List PCollectionId) (cs : List StageId) (w : Wake)
    → contains os pc ≡ true
    → get pc w.manager.consumers ≡ some cs
    → contains cs c ≡ true
    → At (IsWoken pc min) c (wake_outputs empty min os w).manager
unfolding wake_outputs contains
wake_outputs-IsWoken pc c empty min [] cs w ho hc member = absurd (cc)
wake_outputs-IsWoken pc c empty min (o ∷ os) cs w ho hc member = elim (Bool-cases (str_eq o pc)) [
  | inl e ↦
      let o_pc : o ≡ pc = str_eq→eq o pc e in
      let listed : contains (consumers_of (get o w.manager.consumers)) c ≡ true =
        rw (o_pc, hc) member in
      let at_one : At (IsWoken pc min) c one.manager =
        wake_consumers_reaches (IsWoken pc min) c (wake_main o empty min)
          (consumers_of (get o w.manager.consumers)) w
          (λ s. rw (← o_pc) (wake_main-IsWoken o empty min s)) listed in
      wake_outputs_keeps (IsWoken pc min) c empty min os two
        (λ q s. wake_main_keeps pc q empty min s) (λ q s. wake_side_keeps pc q empty min s)
        (wake_consumers_keeps (IsWoken pc min) c (wake_side o empty)
          (consumers_of (get o one.manager.side_input_consumers)) one
          (wake_side_keeps pc o empty min) at_one)
  | inr e ↦ wake_outputs-IsWoken pc c empty min os cs two (rw e at ho) same_consumers member
]
  where
    one : Wake
    one = wake_consumers (wake_main o empty min) (consumers_of (get o w.manager.consumers)) w

    two : Wake
    two =
        wake_consumers (wake_side o empty) (consumers_of (get o one.manager.side_input_consumers))
          one

    same_consumers : get pc two.manager.consumers ≡ some cs
    same_consumers =
        rw
          (
            wake_consumers-consumers (wake_side o empty) _ one,
            wake_consumers-consumers (wake_main o empty min) _ w,
          )
          hc

-- A success of `complete_bundle_with_min_and_input`, taken apart.
pub complete_bundle-inversion :
    (m : WatermarkManager) (stage : StageId) (min : Option Timestamp) (count : Option ℕ)
    (n : WatermarkManager) (ready : List StageId)
    → complete_bundle_with_min_and_input m stage min count ≡ ok (n, ready)
    → (s : StageState) × (get stage m.stage_map ≡ some s)
      × (0 < s.in_flight)
      × (n
          ≡ (wake_outputs
              (propagates_empty_input s min count)
              (propagated_min s min)
              s.outputs
              (finished m stage)).manager)
unfolding complete_bundle_with_min_and_input
complete_bundle-inversion m stage min count n ready h =
    elim (Option-cases (get stage m.stage_map)) [
      | inl e ↦ absurd (
          err≢ok (Error.unknown_stage stage) (n, ready)
            (rw (e, complete_bundle_with_min_and_input) at h))
      | inr (s, e) ↦ elim (Bool-cases (s.in_flight == 0)) [
        | inl z ↦ absurd (
            err≢ok (Error.no_bundle_in_flight stage) (n, ready)
              (rw (e, complete_bundle_with_min_and_input, z) at h))
        | inr z ↦
            let done =
              wake_outputs (propagates_empty_input s min count) (propagated_min s min) s.outputs
                (finished m stage) in
            let result : WatermarkManager × List StageId =
              (done.manager, dedup (sort done.newly_ready)) in
            let same : result ≡ (n, ready) =
              ok_eq result (n, ready) (rw (e, complete_bundle_with_min_and_input, z) at h) in
            (s, e, ground arith, sym (ap (λ (r : WatermarkManager × List StageId). r.0) same))
      ]
    ]

-- Completing a bundle wakes every consumer of each output PCollection: the consumer no longer waits
-- for a first output of it and has it pending, with its clamp at most the propagated minimum (the
-- minimum timestamp if the completed stage has empty inputs, else the bundle's own), unless it has
-- closed its time-sorted input.
pub complete_bundle-IsWoken :
    (m n : WatermarkManager) (stage c : StageId) (pc : PCollectionId) (min : Option Timestamp)
    (count : Option ℕ) (ready cs : List StageId) (s t : StageState)
    → complete_bundle_with_min_and_input m stage min count ≡ ok (n, ready)
    → get stage m.stage_map ≡ some s
    → contains s.outputs pc ≡ true
    → get pc m.consumers ≡ some cs
    → contains cs c ≡ true
    → get c n.stage_map ≡ some t
    → IsWoken pc (propagated_min s min) t
complete_bundle-IsWoken m n stage c pc min count ready cs s t h g o k member last =
    let (s', g', _, e) = complete_bundle-inversion m stage min count n ready h in
    let same : s' ≡ s = same_value (get stage m.stage_map) s' s g' g in
    wake_outputs-IsWoken pc c (propagates_empty_input s min count) (propagated_min s min) s.outputs
      cs (finished m stage) o k member t
      (subst
        (λ u.
          get c
            (wake_outputs (propagates_empty_input u min count) (propagated_min u min) u.outputs
              (finished m stage)).manager.stage_map
          ≡ some t)
        same (rw (← e) last))
