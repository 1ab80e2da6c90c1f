-- ===== src/Watermark/Refresh/Bounds.antt =====
-- The watermarks that flaredb/src/engine/watermark.rs computes never pass the maximum, so each round
-- of `refresh` that moves one narrows the gap to it.
use flare_db.Base.{
  ℕ, zero, suc, ◌+◌, ◌≤◌, ◌<◌, ◌≡◌, ap, ◌≤ℤ◌, String, Bool, true, false, not, Bool-cases, inl, inr,
  Option, none, some, Option-cases, List, [], ◌∷◌, ltb_ℤ, min_ℤ, min_ℤ_left, min_ℤ_right, arith,
}
use flare_db.Base.Dict.{get, modify}
use flare_db.Watermark.State.{
  Timestamp, StageId, PCollectionId, min_timestamp, max_timestamp, PartitionWatermark, SourceState,
  partitions_output, source_output, min_active, StageState, WatermarkManager, min_hold, is_empty,
}
use flare_db.Watermark.Refresh.{
  has_outstanding, upstream, min_upstream, compute_input, base_output, compute_output, min_if,
  min_hold_with, Pass, advance, gap, refresh_stage, refresh_one, refresh_pass, refresh_loop,
  total_gap,
}
use flare_db.Watermark.Refresh.Monotone.{moved_to}
use flare_db.Watermark.Bundles.{all_inputs}

pub min_upstream-le :
    (m : WatermarkManager) (w : Timestamp) (is : List PCollectionId) → min_upstream m w is ≤ℤ w
unfolding min_upstream
min_upstream-le m w [] = omega arith
min_upstream-le m w (i ∷ is) =
    omega (arith, min_upstream-le m (min_ℤ w (upstream m i)) is, min_ℤ_left w (upstream m i))

pub min_active-le : (w : Timestamp) (ps : List (String × PartitionWatermark)) → min_active w ps ≤ℤ w
unfolding min_active
min_active-le w [] = omega arith
min_active-le w ((_, p) ∷ ps) =
    ground
      (arith, min_active-le (min_ℤ w p.watermark) ps, min_active-le w ps, min_ℤ_left w p.watermark)

partitions_output-le :
    (ps : List (String × PartitionWatermark)) → partitions_output ps ≤ℤ max_timestamp
partitions_output-le [] = omega arith
partitions_output-le (p ∷ ps) = min_active-le max_timestamp (p ∷ ps)

pub source_output-le : (s : SourceState) → source_output s ≤ℤ max_timestamp
unfolding source_output
source_output-le s = elim (Bool-cases s.finished) [
  | inl e ↦ rw (e, source_output) (omega arith)
  | inr e ↦ rw (e, source_output) (partitions_output-le s.partitions)
]

pub compute_input-le : (m : WatermarkManager) (s : StageState) → compute_input m s ≤ℤ max_timestamp
unfolding compute_input
compute_input-le m s = ground (arith, min_upstream-le m max_timestamp (all_inputs s))

pub base_output-le :
    (m : WatermarkManager) (s : StageState) (o : Option SourceState)
    → base_output m s o ≤ℤ max_timestamp
unfolding base_output
base_output-le m s (some source) = source_output-le source
base_output-le m s none = omega (
  arith,
  min_upstream-le m max_timestamp s.main_inputs,
  min_ℤ_left (min_upstream m max_timestamp s.main_inputs) s.pending_min,
)

pub min_if-le : (b : Bool) (w t : Timestamp) → min_if b w t ≤ℤ w
min_if-le true w t = min_ℤ_left w t
min_if-le false w t = omega arith

pub min_hold_with-le : (w : Timestamp) (h : Option Timestamp) → min_hold_with w h ≤ℤ w
min_hold_with-le w none = omega arith
min_hold_with-le w (some h) = min_ℤ_left w h

pub min_hold_with-le_hold : (w h : Timestamp) → min_hold_with w (some h) ≤ℤ h
min_hold_with-le_hold w h = min_ℤ_right w h

-- The output with the two implicit holds, and before the explicit ones.
abbrev pub held_output : WatermarkManager → StageState → Timestamp
held_output m s =
    min_if (not (is_empty s.pending_empty))
      (min_if (has_outstanding s) (base_output m s s.source) s.watermark_at_last_run) min_timestamp

held_output-le : (a b : Bool) (w t u : Timestamp) → min_if a (min_if b w t) u ≤ℤ w
held_output-le a b w t u = omega (arith, min_if-le a (min_if b w t) u, min_if-le b w t)

pub compute_output-le :
    (m : WatermarkManager) (s : StageState) → compute_output m s ≤ℤ max_timestamp
unfolding compute_output
compute_output-le m s = omega (
  arith,
  min_hold_with-le (held_output m s) (min_hold s),
  held_output-le (not (is_empty s.pending_empty)) (has_outstanding s) (base_output m s s.source)
      s.watermark_at_last_run min_timestamp,
  base_output-le m s s.source,
)

total_gap-modify :
    (id : StageId) (f : StageState → StageState) (ss : List (StageId × StageState)) (s : StageState)
    → get id ss ≡ some s
    → total_gap (modify id f ss) + (gap s.input + gap s.output)
      ≡ total_gap ss + (gap (f s).input + gap (f s).output)
unfolding get modify total_gap
total_gap-modify id f [] s h = ground arith
total_gap-modify id f ((j, t) ∷ rest) s h = ground (arith, total_gap-modify id f rest s)

-- 1 for a pass that has moved a watermark.
abbrev pub flag : Bool → ℕ
flag true = 1
flag false = 0

gap-advance :
    (old new : Timestamp)
    → new ≤ℤ max_timestamp
    → gap (advance old new) + flag (ltb_ℤ old new) ≤ gap old
gap-advance old new h = ground arith

refresh_stage-gap :
    (id : StageId) (s : StageState) (p : Pass)
    → get id p.manager.stage_map ≡ some s
    → total_gap (refresh_stage id s p).manager.stage_map + flag (refresh_stage id s p).changed
      ≤ total_gap p.manager.stage_map + flag p.changed
unfolding refresh_stage
refresh_stage-gap id s p h =
    let i = compute_input p.manager s in
    let o = compute_output p.manager s in
    ground (
      arith,
      total_gap-modify id (moved_to i o) p.manager.stage_map s h,
      gap-advance s.input i,
      gap-advance s.output o,
      compute_input-le p.manager s,
      compute_output-le p.manager s,
    )

refresh_one-gap :
    (id : StageId) (p : Pass)
    → total_gap (refresh_one id p).manager.stage_map + flag (refresh_one id p).changed
      ≤ total_gap p.manager.stage_map + flag p.changed
unfolding refresh_one
refresh_one-gap id p = elim (Option-cases (get id p.manager.stage_map)) [
  | inl e ↦ rw (e, refresh_one) (omega arith)
  | inr (s, e) ↦ rw (e, refresh_one) (refresh_stage-gap id s p e)
]

-- A pass that moves a watermark narrows the gap.
pub refresh_pass-gap :
    (ids : List StageId) (p : Pass)
    → total_gap (refresh_pass ids p).manager.stage_map + flag (refresh_pass ids p).changed
      ≤ total_gap p.manager.stage_map + flag p.changed
unfolding refresh_pass
refresh_pass-gap [] p = omega arith
refresh_pass-gap (id ∷ ids) p =
    omega (arith, refresh_pass-gap ids (refresh_one id p), refresh_one-gap id p)

pub refresh_loop-ends :
    (fuel : ℕ) (ids : List StageId) (p : Pass)
    → total_gap p.manager.stage_map < fuel
    → (refresh_loop fuel ids p).changed ≡ false
unfolding refresh_loop
refresh_loop-ends zero ids p h = absurd (omega arith)
refresh_loop-ends (suc fuel) ids p h =
    let q = record p { changed = false } in
    elim (Bool-cases (refresh_pass ids q).changed) [
      | inl e ↦
          rw (e, refresh_loop)
            (refresh_loop-ends fuel ids (refresh_pass ids q)
              (omega (arith, refresh_pass-gap ids q, ap flag e)))
      | inr e ↦ rw (e, refresh_loop) e
    ]
