-- ===== src/Watermark/Refresh/Spec.antt =====
-- The equations of the module comment of flaredb/src/engine/watermark.rs, as what `refresh` reaches.
use flare_db.Base.{
  ℕ, zero, suc, ◌≡◌, refl, inl, inr, ◌≤ℤ◌, false, Bool-cases, some, Option-cases, List, [], ◌∷◌,
  ≤ℤ_antisym, min_ℤ, min_ℤ_mono, some_eq, ≤ℤ_trans, arith,
}
use flare_db.Base.Text.{str_eq}
use flare_db.Base.Dict.{get, modify, get-modify}
use flare_db.Watermark.State.{
  Timestamp, StageId, PCollectionId, max_timestamp, StageState, WatermarkManager,
}
use flare_db.Watermark.Manager.{stages}
use flare_db.Watermark.Bundles.{producer_stage, all_inputs}
use flare_db.Watermark.Refresh.{
  upstream, min_upstream, compute_input, compute_output, Pass, advance, refresh_one, refresh_pass,
  refresh_loop, refresh, total_gap, first_pass,
}
use flare_db.Watermark.Refresh.Monotone.{Extends, moved_to, moved_to-IsLater, modify-Extends}
use flare_db.Watermark.Refresh.Fixpoint.{refresh-settles}

-- The manager after one round of the inner loop.
abbrev pub advanced_manager : StageId → StageState → WatermarkManager → WatermarkManager
advanced_manager id s m = record m {
  stage_map = modify id (moved_to (compute_input m s) (compute_output m s)) m.stage_map;
}

-- What every round keeps, `refresh` keeps.
module _ {ℓ} (P : WatermarkManager → Type ℓ)
    (keep : (id : StageId) (s : StageState) (m : WatermarkManager)
      → get id m.stage_map ≡ some s
      → P m
      → P (advanced_manager id s m)) where
  refresh_one-keeps : (id : StageId) (p : Pass) → P p.manager → P (refresh_one id p).manager
  unfolding refresh_one
  refresh_one-keeps id p h = elim (Option-cases (get id p.manager.stage_map)) [
    | inl e ↦ rw (e, refresh_one) h
    | inr (s, e) ↦ rw (e, refresh_one) (keep id s p.manager e h)
  ]

  refresh_pass-keeps :
      (ids : List StageId) (p : Pass) → P p.manager → P (refresh_pass ids p).manager
  unfolding refresh_pass
  refresh_pass-keeps [] p h = h
  refresh_pass-keeps (id ∷ ids) p h =
      refresh_pass-keeps ids (refresh_one id p) (unfold refresh_one in refresh_one-keeps id p h)

  refresh_loop-keeps :
      (fuel : ℕ) (ids : List StageId) (p : Pass) → P p.manager → P (refresh_loop fuel ids p).manager
  unfolding refresh_loop
  refresh_loop-keeps zero ids p h = h
  refresh_loop-keeps (suc fuel) ids p h =
      let q = record p { changed = false } in
      let next : P (refresh_pass ids q).manager = refresh_pass-keeps ids q h in
      elim (Bool-cases (refresh_pass ids q).changed) [
        | inl e ↦ rw (e, refresh_loop) (refresh_loop-keeps fuel ids (refresh_pass ids q) next)
        | inr e ↦ rw (e, refresh_loop) next
      ]

  pub refresh-keeps : (m : WatermarkManager) → P m → P (refresh m).0
  unfolding refresh
  refresh-keeps m = refresh_loop-keeps (suc (total_gap m.stage_map)) (stages m) (first_pass m)

-- Later outputs make later inputs.
producer_stage-Extends :
    (m n : WatermarkManager) (i : PCollectionId) → Extends m n → upstream m i ≤ℤ upstream n i
unfolding upstream
producer_stage-Extends m n i ext = elim (Option-cases (get i m.producers)) [
  | inl e ↦ rw (ext.producers, e, producer_stage) (omega arith)
  | inr (id, e) ↦ elim (Option-cases (get id m.stage_map)) [
    | inl g ↦ rw (ext.producers, e, producer_stage, g, ext.missing id g) (omega arith)
    | inr (s, g) ↦
        let (t, h, later) = ext.stages id s g in
        rw (ext.producers, e, producer_stage, g, h) later.output
  ]
]

min_upstream-Extends :
    (m n : WatermarkManager) (v w : Timestamp) (is : List PCollectionId)
    → Extends m n
    → v ≤ℤ w
    → min_upstream m v is ≤ℤ min_upstream n w is
unfolding min_upstream
min_upstream-Extends m n v w [] ext h = h
min_upstream-Extends m n v w (i ∷ is) ext h =
    min_upstream-Extends m n (min_ℤ v (upstream m i)) (min_ℤ w (upstream n i)) is ext
      (min_ℤ_mono v (upstream m i) w (upstream n i) h (producer_stage-Extends m n i ext))

compute_input-Extends :
    (m n : WatermarkManager) (s : StageState) → Extends m n → compute_input m s ≤ℤ compute_input n s
unfolding compute_input
compute_input-Extends m n s ext =
    ground (arith, min_upstream-Extends m n max_timestamp max_timestamp (all_inputs s) ext)

-- No input watermark runs ahead of the outputs upstream.
abbrev pub IsSound : WatermarkManager → Type 0
IsSound m =
    (id : StageId) (s : StageState) → get id m.stage_map ≡ some s → s.input ≤ℤ compute_input m s

compute_input_same :
    (m : WatermarkManager) (s : StageState) (i o : Timestamp)
    → compute_input m (moved_to i o s) ≡ compute_input m s
unfolding compute_input
compute_input_same m s i o = refl

advance-le_new : (old new : Timestamp) → old ≤ℤ new → advance old new ≤ℤ new
advance-le_new old new h = ground arith

IsSound-step :
    (id : StageId) (s : StageState) (m : WatermarkManager)
    → get id m.stage_map ≡ some s
    → IsSound m
    → IsSound (advanced_manager id s m)
IsSound-step id s m g sound j t h = elim (Bool-cases (str_eq id j)) [
  | inl e ↦
      let moved : some (f s) ≡ some t = rw (get-modify id j f m.stage_map, e, g) at h in
      let e' : f s ≡ t = some_eq (f s) t moved in
      rw (← e', compute_input_same n s (compute_input m s) (compute_output m s))
        (≤ℤ_trans (advance s.input (compute_input m s)) (compute_input m s) (compute_input n s)
          (advance-le_new s.input (compute_input m s) (sound id s g))
          (compute_input-Extends m n s ext))
  | inr e ↦
      let kept : get j m.stage_map ≡ some t = rw (get-modify id j f m.stage_map, e) at h in
      ≤ℤ_trans t.input (compute_input m t) (compute_input n t) (sound j t kept)
        (compute_input-Extends m n t ext)
]
  where
    f : StageState → StageState
    f = moved_to (compute_input m s) (compute_output m s)

    n : WatermarkManager
    n = advanced_manager id s m

    ext : Extends m n
    ext = modify-Extends id f m (moved_to-IsLater _ _)

-- `refresh` keeps input watermarks at or below the outputs upstream.
pub refresh-IsSound : (m : WatermarkManager) → IsSound m → IsSound (refresh m).0
refresh-IsSound = refresh-keeps IsSound IsSound-step

-- From a state where no input watermark runs ahead of its upstream outputs, `refresh` leaves every
-- stage of the map with exactly the minimum over the upstream outputs as its input watermark.
pub refresh-input :
    (m : WatermarkManager) (id : StageId) (t : StageState)
    → IsSound m
    → get id (refresh m).0.stage_map ≡ some t
    → t.input ≡ compute_input (refresh m).0 t
refresh-input m id t sound h =
    ≤ℤ_antisym t.input _ (refresh-IsSound m sound id t h) (refresh-settles m id t h).input_settled
