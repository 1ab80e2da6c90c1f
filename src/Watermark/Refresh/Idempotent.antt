-- ===== src/Watermark/Refresh/Idempotent.antt =====
-- A second `refresh` of flaredb/src/engine/watermark.rs finds nothing to do.
use flare_db.Base.{
  ℕ, suc, ◌≡◌, refl, ap, ◌∙◌, inl, inr, ◌≤ℤ◌, false, some, Option-cases, List, [], ◌∷◌, ltb_ℤ,
  arith,
}
use flare_db.Base.Text.{sort}
use flare_db.Base.Dict.{get, modify}
use flare_db.Watermark.State.{Timestamp, StageId, StageState, WatermarkManager}
use flare_db.Watermark.Manager.{stages}
use flare_db.Watermark.Refresh.{
  compute_input, compute_output, Pass, refresh_stage, refresh_one, refresh_pass, refresh_loop,
  refresh, total_gap, first_pass,
}
use flare_db.Watermark.Refresh.Monotone.{moved_to}
use flare_db.Watermark.Refresh.Fixpoint.{
  IsSettledStage, modify_same, advance_still, refresh-settles,
}

settled_still : (old new : Timestamp) → new ≤ℤ old → ltb_ℤ old new ≡ false
settled_still old new h = ground arith

abbrev quiet : WatermarkManager → Pass
quiet m = record { manager = m; advanced = []; changed = false }

refresh_stage_settled :
    (id : StageId) (s : StageState) (m : WatermarkManager)
    → get id m.stage_map ≡ some s
    → IsSettledStage m s
    → refresh_stage id s (quiet m) ≡ quiet m
unfolding refresh_stage
refresh_stage_settled id s m g h =
    let i = compute_input m s in
    let o = compute_output m s in
    let si : ltb_ℤ s.input i ≡ false = settled_still s.input i h.input_settled in
    let so : ltb_ℤ s.output o ≡ false = settled_still s.output o h.output_settled in
    let still : moved_to i o s ≡ s = λ k. record s {
      input = advance_still s.input i si k;
      output = advance_still s.output o so k;
    } in
    let same : modify id (moved_to i o) m.stage_map ≡ m.stage_map =
      modify_same id (moved_to i o) m.stage_map s g still in
    rw (si, so) (λ k. quiet (record m { stage_map = same k }))

refresh_one_settled :
    (id : StageId) (m : WatermarkManager)
    → ((s : StageState) → get id m.stage_map ≡ some s → IsSettledStage m s)
    → refresh_one id (quiet m) ≡ quiet m
unfolding refresh_one
refresh_one_settled id m h = elim (Option-cases (get id m.stage_map)) [
  | inl e ↦ rw (e, refresh_one)
  | inr (s, e) ↦ rw (e, refresh_one) (refresh_stage_settled id s m e (h s e))
]

refresh_pass_settled :
    (ids : List StageId) (m : WatermarkManager)
    → ((id : StageId) (s : StageState) → get id m.stage_map ≡ some s → IsSettledStage m s)
    → refresh_pass ids (quiet m) ≡ quiet m
unfolding refresh_pass
refresh_pass_settled [] m h = refl
refresh_pass_settled (id ∷ ids) m h =
    ap (refresh_pass ids) (unfold refresh_one in refresh_one_settled id m (h id))
    ∙ refresh_pass_settled ids m h

loop_stops :
    (fuel : ℕ) (ids : List StageId) (p q : Pass)
    → refresh_pass ids (record p { changed = false }) ≡ q
    → q.changed ≡ false
    → refresh_loop (suc fuel) ids p ≡ q
unfolding refresh_loop
loop_stops fuel ids p q e h =
    let stopped : (refresh_pass ids (record p { changed = false })).changed ≡ false =
      ap (λ (r : Pass). r.changed) e ∙ h in
    rw (stopped, refresh_loop) e

settled-refresh :
    (m : WatermarkManager)
    → ((id : StageId) (s : StageState) → get id m.stage_map ≡ some s → IsSettledStage m s)
    → refresh m ≡ (m, [])
unfolding refresh sort
settled-refresh m h =
    let e : refresh_pass (stages m) (quiet m) ≡ quiet m = refresh_pass_settled (stages m) m h in
    let loop = loop_stops (total_gap m.stage_map) (stages m) (first_pass m) (quiet m) e refl in
    ap (λ (p : Pass). (p.manager, sort p.advanced)) loop

-- With no new input a second `refresh` reports no stage and changes nothing.
pub refresh-refresh : (m : WatermarkManager) → refresh (refresh m).0 ≡ ((refresh m).0, [])
refresh-refresh m = settled-refresh (refresh m).0 (refresh-settles m)
