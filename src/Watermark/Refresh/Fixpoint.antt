-- ===== src/Watermark/Refresh/Fixpoint.antt =====
-- `refresh` of flaredb/src/engine/watermark.rs ends in a fixpoint of the two watermark equations.
use flare_db.Base.{
  ℕ, zero, suc, ◌≡◌, refl, sym, ap, ◌∙◌, inl, inr, ◌≤ℤ◌, Bool, true, false, ◌||◌, Bool-cases, some,
  Option-cases, List, [], ◌∷◌, ltb_ℤ, subst, same_value, none≢some, arith,
}
use flare_db.Base.Text.{str_eq, str_eq→eq, contains, contains-sort}
use flare_db.Base.Dict.{get, modify, keys, contains-keys}
use flare_db.Watermark.State.{Timestamp, StageId, StageState, WatermarkManager}
use flare_db.Watermark.Manager.{stages}
use flare_db.Watermark.Refresh.{
  compute_input, compute_output, Pass, advance, refresh_stage, refresh_one, refresh_pass,
  refresh_loop, refresh, total_gap, first_pass,
}
use flare_db.Watermark.Refresh.Monotone.{moved_to, refresh_loop-Extends}
use flare_db.Watermark.Refresh.Bounds.{refresh_loop-ends}

-- Neither watermark of the stage can move.
pub record IsSettledStage (m : WatermarkManager) (s : StageState) : Type 0 where
  pub input_settled : compute_input m s ≤ℤ s.input
  pub output_settled : compute_output m s ≤ℤ s.output

abbrev pub IsSettled : WatermarkManager → List StageId → Type 0
IsSettled m [] = Unit {0}
IsSettled m (id ∷ ids) =
    ((s : StageState) → get id m.stage_map ≡ some s → IsSettledStage m s) × IsSettled m ids

pub modify_same :
    (id : StageId) (f : StageState → StageState) (ss : List (StageId × StageState)) (s : StageState)
    → get id ss ≡ some s
    → f s ≡ s
    → modify id f ss ≡ ss
unfolding get modify
modify_same id f [] s h e = refl
modify_same id f ((j, t) ∷ rest) s h e = ground (arith, modify_same id f rest s)

pub advance_still : (old new : Timestamp) → ltb_ℤ old new ≡ false → advance old new ≡ old
advance_still old new h = rw h

ltb_ℤ_still : (old new : Timestamp) → ltb_ℤ old new ≡ false → new ≤ℤ old
ltb_ℤ_still old new h = ground arith

or_false : (a b : Bool) → (a || b) ≡ false → (a ≡ false) × (b ≡ false)
or_false a b h = ground arith

-- A round that leaves the flag unset changed nothing, since there was nothing to move.
refresh_stage_still :
    (id : StageId) (s : StageState) (p : Pass)
    → get id p.manager.stage_map ≡ some s
    → (refresh_stage id s p).changed ≡ false
    → (p.changed ≡ false)
      × ((refresh_stage id s p).manager ≡ p.manager)
      × IsSettledStage p.manager s
unfolding refresh_stage
refresh_stage_still id s p g h =
    let i = compute_input p.manager s in
    let o = compute_output p.manager s in
    let (moved, before) = or_false (ltb_ℤ s.input i || ltb_ℤ s.output o) p.changed h in
    let (si, so) = or_false (ltb_ℤ s.input i) (ltb_ℤ s.output o) moved in
    let still : moved_to i o s ≡ s = λ k. record s {
      input = advance_still s.input i si k;
      output = advance_still s.output o so k;
    } in
    (
      before,
      ap (λ (ss : List (StageId × StageState)). record (p.manager) { stage_map = ss })
          (modify_same id (moved_to i o) p.manager.stage_map s g still),
      record {
        input_settled = ltb_ℤ_still s.input i si;
        output_settled = ltb_ℤ_still s.output o so;
      },
    )

abbrev SettledAt : WatermarkManager → StageId → Type 0
SettledAt m id = (s : StageState) → get id m.stage_map ≡ some s → IsSettledStage m s

refresh_one_still :
    (id : StageId) (p : Pass)
    → (refresh_one id p).changed ≡ false
    → (p.changed ≡ false) × ((refresh_one id p).manager ≡ p.manager) × SettledAt p.manager id
unfolding refresh_one
refresh_one_still id p h = elim (Option-cases (get id p.manager.stage_map)) [
  | inl e ↦ (
    rw (e, refresh_one) at h,
    rw (e, refresh_one),
    λ s g. absurd (none≢some (get id p.manager.stage_map) s e g),
  )
  | inr (s, e) ↦
      let (c, same, settled) = refresh_stage_still id s p e (rw (e, refresh_one) at h) in
      (
        c,
        rw (e, refresh_one) same,
        λ t g. subst (IsSettledStage p.manager) (same_value _ s t e g) settled,
      )
]

refresh_pass_still :
    (ids : List StageId) (p : Pass)
    → (refresh_pass ids p).changed ≡ false
    → (p.changed ≡ false) × ((refresh_pass ids p).manager ≡ p.manager) × IsSettled p.manager ids
unfolding refresh_pass
refresh_pass_still [] p h = (h, refl, tt)
refresh_pass_still (id ∷ ids) p h =
    let (c, same, settled) = refresh_pass_still ids (refresh_one id p) h in
    let (c', same', at_id) = refresh_one_still id p c in
    (c', same ∙ same', (at_id, subst (λ m. IsSettled m ids) same' settled))

refresh_loop-IsSettled :
    (fuel : ℕ) (ids : List StageId) (p : Pass)
    → p.changed ≡ true
    → (refresh_loop fuel ids p).changed ≡ false
    → IsSettled (refresh_loop fuel ids p).manager ids
unfolding refresh_loop
refresh_loop-IsSettled zero ids p c h = cc
refresh_loop-IsSettled (suc fuel) ids p c h =
    let q = record p { changed = false } in
    elim (Bool-cases (refresh_pass ids q).changed) [
      | inl e ↦
          rw (e, refresh_loop)
            (refresh_loop-IsSettled fuel ids (refresh_pass ids q) e (rw (e, refresh_loop) at h))
      | inr e ↦
          let (c', same, settled) = refresh_pass_still ids q e in
          rw (e, refresh_loop) (subst (λ m. IsSettled m ids) (sym same) settled)
    ]

settled_member :
    (m : WatermarkManager) (ids : List StageId) (id : StageId)
    → contains ids id ≡ true
    → IsSettled m ids
    → SettledAt m id
unfolding contains
settled_member m [] id h x = ground arith
settled_member m (j ∷ ids) id h x = elim (Bool-cases (str_eq j id)) [
  | inl e ↦ subst (SettledAt m) (str_eq→eq j id e) x.0
  | inr e ↦ settled_member m ids id (rw e at h) x.1
]

pub member_stages :
    (m : WatermarkManager) (id : StageId) (s : StageState)
    → get id m.stage_map ≡ some s
    → contains (stages m) id ≡ true
unfolding stages
member_stages m id s h = contains-sort id (keys m.stage_map) ∙ contains-keys id m.stage_map s h

pub refresh-changed :
    (m : WatermarkManager)
    → (refresh_loop (suc (total_gap m.stage_map)) (stages m) (first_pass m)).changed ≡ false
refresh-changed m =
    refresh_loop-ends (suc (total_gap m.stage_map)) (stages m) (first_pass m) (omega arith)

-- After `refresh` no watermark of any stage can move any further: the loop has reached a fixpoint
-- of the two watermark equations before its fuel ran out.
pub refresh-settles :
    (m : WatermarkManager) (id : StageId) (t : StageState)
    → get id (refresh m).0.stage_map ≡ some t
    → IsSettledStage (refresh m).0 t
unfolding refresh
refresh-settles m id t h =
    let ext = refresh_loop-Extends (suc (total_gap m.stage_map)) (stages m) (first_pass m) in
    elim (Option-cases (get id m.stage_map)) [
      | inl e ↦ absurd (none≢some _ t (ext.missing id e) h)
      | inr (s, e) ↦
          settled_member _ (stages m) id (member_stages m id s e)
            (refresh_loop-IsSettled (suc (total_gap m.stage_map)) (stages m) (first_pass m) refl
              (refresh-changed m))
            t h
    ]
