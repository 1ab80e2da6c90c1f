-- ===== src/Watermark/Refresh/Holds.antt =====
-- What holds an output watermark back in `compute_output` of flaredb/src/engine/watermark.rs.
use flare_db.Base.{
  ◌≡◌, subst, inl, inr, ◌≤ℤ◌, true, false, not, Bool-cases, none, some, min_ℤ_right, same_value,
  some_eq, ≤ℤ_trans, arith,
}
use flare_db.Base.Text.{str_eq, str_eq→eq}
use flare_db.Base.Dict.{get, modify, get-modify}
use flare_db.Watermark.State.{
  Timestamp, StageId, min_timestamp, max_timestamp, StageState, WatermarkManager, min_hold,
  is_empty,
}
use flare_db.Watermark.Refresh.{
  min_upstream, compute_input, compute_output, base_output, min_if, has_outstanding, advance,
  refresh,
}
use flare_db.Watermark.Refresh.Monotone.{moved_to}
use flare_db.Watermark.Refresh.Bounds.{min_if-le, min_hold_with-le, held_output}
use flare_db.Watermark.Refresh.Spec.{advanced_manager, refresh-keeps}

-- The reasons for which a stage may not publish an output watermark past `b`: its earliest explicit
-- hold, a first bundle that is running or declared, input that is not consumed, or an empty input.
pub data IsHeldAt (s : StageState) (b : Timestamp) : Type 0 where
  by_hold : min_hold s ≡ some b → IsHeldAt s b
  by_bundle : has_outstanding s ≡ true → s.watermark_at_last_run ≡ b → IsHeldAt s b
  by_pending : s.source ≡ none → s.pending_min ≡ b → IsHeldAt s b
  by_empty_input : is_empty s.pending_empty ≡ false → min_timestamp ≡ b → IsHeldAt s b

base_pending : (m : WatermarkManager) (s : StageState) → base_output m s none ≤ℤ s.pending_min
unfolding base_output
base_pending m s = min_ℤ_right (min_upstream m max_timestamp s.main_inputs) s.pending_min

pub compute_output-IsHeldAt :
    (m : WatermarkManager) (s : StageState) (b : Timestamp) → IsHeldAt s b → compute_output m s ≤ℤ b
unfolding compute_output
compute_output-IsHeldAt m s b (by_hold h) = rw h (min_ℤ_right (held_output m s) b)
compute_output-IsHeldAt m s b (by_bundle h e) =
    ≤ℤ_trans _ (held_output m s) b (min_hold_with-le (held_output m s) (min_hold s)) (
      ≤ℤ_trans (held_output m s) inner b
        (min_if-le (not (is_empty s.pending_empty)) inner min_timestamp)
        (rw (h, ← e) (min_ℤ_right (base_output m s s.source) s.watermark_at_last_run)))
  where
    inner : Timestamp
    inner = min_if (has_outstanding s) (base_output m s s.source) s.watermark_at_last_run
compute_output-IsHeldAt m s b (by_pending h e) =
    ≤ℤ_trans _ (held_output m s) b (min_hold_with-le (held_output m s) (min_hold s)) (
      ≤ℤ_trans (held_output m s) inner b
        (min_if-le (not (is_empty s.pending_empty)) inner min_timestamp)
        (≤ℤ_trans inner (base_output m s s.source) b
          (min_if-le (has_outstanding s) (base_output m s s.source) s.watermark_at_last_run)
          (rw (h, ← e) (base_pending m s))))
  where
    inner : Timestamp
    inner = min_if (has_outstanding s) (base_output m s s.source) s.watermark_at_last_run
compute_output-IsHeldAt m s b (by_empty_input h e) =
    ≤ℤ_trans _ (held_output m s) b (min_hold_with-le (held_output m s) (min_hold s))
      (rw (h, ← e) (min_ℤ_right inner min_timestamp))
  where
    inner : Timestamp
    inner = min_if (has_outstanding s) (base_output m s s.source) s.watermark_at_last_run

-- Moving the watermarks of a stage does not lift what holds it.
moved-IsHeldAt : (s : StageState) (i o b : Timestamp) → IsHeldAt s b → IsHeldAt (moved_to i o s) b
unfolding min_hold
moved-IsHeldAt s i o b (by_hold h) = by_hold h
moved-IsHeldAt s i o b (by_bundle h e) = by_bundle h e
moved-IsHeldAt s i o b (by_pending h e) = by_pending h e
moved-IsHeldAt s i o b (by_empty_input h e) = by_empty_input h e

record IsHeldBack (id : StageId) (b : Timestamp) (m : WatermarkManager) : Type 0 where
  held : (s : StageState) → get id m.stage_map ≡ some s → IsHeldAt s b × (s.output ≤ℤ b)

advance-le_both : (old new b : Timestamp) → old ≤ℤ b → new ≤ℤ b → advance old new ≤ℤ b
advance-le_both old new b h k = ground arith

IsHeldBack-step :
    (id : StageId) (b : Timestamp) (j : StageId) (s : StageState) (m : WatermarkManager)
    → get j m.stage_map ≡ some s
    → IsHeldBack id b m
    → IsHeldBack id b (advanced_manager j s m)
IsHeldBack-step id b j s m g h = record { held = after }
  where
    f : StageState → StageState
    f = moved_to (compute_input m s) (compute_output m s)

    after :
        (t : StageState) → get id (modify j f m.stage_map) ≡ some t → IsHeldAt t b × (t.output ≤ℤ b)
    after t k = elim (Bool-cases (str_eq j id)) [
      | inl e ↦
          let j_id : j ≡ id = str_eq→eq j id e in
          let moved : some (f s) ≡ some t = rw (get-modify j id f m.stage_map, e, g) at k in
          let at_j = h.held s (rw (← j_id) g) in
          subst (λ u. IsHeldAt u b × (u.output ≤ℤ b)) (some_eq (f s) t moved)
            (
              moved-IsHeldAt s _ _ b at_j.0,
              advance-le_both s.output (compute_output m s) b at_j.1
                  (compute_output-IsHeldAt m s b at_j.0),
            )
      | inr e ↦ h.held t (rw (get-modify j id f m.stage_map, e) at k)
    ]

-- A stage that is held at `b`, with its output watermark not past `b`, still has it there after
-- `refresh`, whatever its upstream reports: an earliest hold, a first bundle that is running or
-- declared, unconsumed input of a stage that is no source, or an empty input keeps it back.
pub refresh-output_held :
    (m : WatermarkManager) (id : StageId) (s t : StageState) (b : Timestamp)
    → get id m.stage_map ≡ some s
    → IsHeldAt s b
    → s.output ≤ℤ b
    → get id (refresh m).0.stage_map ≡ some t
    → t.output ≤ℤ b
refresh-output_held m id s t b g h le k =
    let start : IsHeldBack id b m = record {
      held = λ u e. subst (λ v. IsHeldAt v b × (v.output ≤ℤ b)) (same_value _ s u g e) (h, le);
    } in
    ((refresh-keeps (IsHeldBack id b) (IsHeldBack-step id b) m start).held t k).1
