-- ===== src/Watermark/Refresh.antt =====
-- `refresh` of flaredb/src/engine/watermark.rs, with the watermarks that it computes.
pub mod Monotone
pub mod Bounds
pub mod Fixpoint
pub mod Spec
pub mod Idempotent
pub mod Holds
use flare_db.Base.{
  ℕ, zero, suc, ◌+◌, ◌-◌, Bool, true, false, not, ◌&&◌, ◌||◌, Option, none, some, List, [], ◌∷◌,
  ltb, if◌then◌else◌, ltb_ℤ, min_ℤ, pos_part, neg_part,
}
use flare_db.Base.Text.{contains, set_insert, set_remove, sort}
use flare_db.Base.Dict.{get, modify, modify_all}
use flare_db.Watermark.State.{
  Timestamp, StageId, PCollectionId, min_timestamp, max_timestamp, SourceState, source_output,
  StageState, WatermarkManager, min_hold, is_empty, is_source,
}
use flare_db.Watermark.Manager.{stages, stage_or}
use flare_db.Watermark.Bundles.{producer_stage, all_inputs}

-- Output watermark of the stage that produces a PCollection.
unfoldable pub upstream : WatermarkManager → PCollectionId → Timestamp
unfolding producer_stage
upstream m pcollection = stage_or min_timestamp (λ s. s.output) (producer_stage m pcollection)

-- The loop `watermark = watermark.min(self.upstream(input))`.
unfoldable pub min_upstream : WatermarkManager → Timestamp → List PCollectionId → Timestamp
min_upstream m w [] = w
min_upstream m w (input ∷ inputs) = min_upstream m (min_ℤ w (upstream m input)) inputs

unfoldable pub compute_input : WatermarkManager → StageState → Timestamp
compute_input m s =
    if is_source s then max_timestamp else min_upstream m max_timestamp (all_inputs s)

-- The watermark before the implicit and explicit holds.
unfoldable pub base_output : WatermarkManager → StageState → Option SourceState → Timestamp
base_output m s (some source) = source_output source
base_output m s none = min_ℤ (min_upstream m max_timestamp s.main_inputs) s.pending_min

abbrev pub min_if : Bool → Timestamp → Timestamp → Timestamp
min_if b w t = if b then min_ℤ w t else w

abbrev pub min_hold_with : Timestamp → Option Timestamp → Timestamp
min_hold_with w none = w
min_hold_with w (some hold) = min_ℤ w hold

-- Whether a bundle of a stage that never completed is running or declared.
abbrev pub has_outstanding : StageState → Bool
has_outstanding s = not s.completed && (ltb 0 s.in_flight || ltb 0 s.queued)

unfoldable pub compute_output : WatermarkManager → StageState → Timestamp
unfolding base_output
compute_output m s =
    min_hold_with
      (min_if (not (is_empty s.pending_empty))
        (min_if (has_outstanding s) (base_output m s s.source) s.watermark_at_last_run)
        min_timestamp)
      (min_hold s)

-- What the loops of `refresh` carry.
pub record Pass : Type 0 where
  pub manager : WatermarkManager
  pub advanced : List StageId
  pub changed : Bool

abbrev pub advance : Timestamp → Timestamp → Timestamp
advance old new = if ltb_ℤ old new then new else old

-- The body of the inner loop, for a stage in the map.
unfoldable pub refresh_stage : StageId → StageState → Pass → Pass
refresh_stage id s p =
    let new_input = compute_input p.manager s in
    let new_output = compute_output p.manager s in
    let moved = ltb_ℤ s.input new_input || ltb_ℤ s.output new_output in
    record {
      manager = record (p.manager) {
        stage_map =
            modify id
              (λ t. record t {
                input = advance t.input new_input;
                output = advance t.output new_output;
              })
              p.manager.stage_map;
      };
      advanced = if moved then set_insert id p.advanced else p.advanced;
      changed = moved || p.changed;
    }

-- The ids are the keys of the map, so the lookup never fails in `refresh`.
unfoldable pub refresh_one : StageId → Pass → Pass
unfolding refresh_stage
refresh_one id p = elim (get id p.manager.stage_map) [ none ↦ p | some s ↦ refresh_stage id s p ]

-- The inner loop.
unfoldable pub refresh_pass : List StageId → Pass → Pass
unfolding refresh_one
refresh_pass [] p = p
refresh_pass (id ∷ ids) p = refresh_pass ids (refresh_one id p)

-- The outer loop, on fuel: it stops after a pass that changed nothing.
unfoldable pub refresh_loop : ℕ → List StageId → Pass → Pass
unfolding refresh_pass
refresh_loop zero ids p = p
refresh_loop (suc fuel) ids p =
    let next = refresh_pass ids (record p { changed = false }) in
    elim next.changed [ true ↦ refresh_loop fuel ids next | false ↦ next ]

-- How far a watermark can still move.
abbrev pub gap : Timestamp → ℕ
gap t = pos_part max_timestamp + neg_part t - pos_part t

unfoldable pub total_gap : List (StageId × StageState) → ℕ
total_gap [] = 0
total_gap ((id, s) ∷ rest) = gap s.input + gap s.output + total_gap rest

abbrev pub first_pass : WatermarkManager → Pass
first_pass m = record { manager = m; advanced = []; changed = true }

-- Every pass but the last narrows the gap, so this fuel is enough.
unfoldable pub refresh : WatermarkManager → WatermarkManager × List StageId
unfolding refresh_loop total_gap
refresh m =
    let done = refresh_loop (suc (total_gap m.stage_map)) (stages m) (first_pass m) in
    (done.manager, sort done.advanced)

-- Marks the side inputs among the empty inputs as produced.
unfoldable pub release_sides :
    List PCollectionId → List PCollectionId → List PCollectionId → List PCollectionId
release_sides sides [] unproduced = unproduced
release_sides sides (input ∷ inputs) unproduced =
    release_sides sides inputs
      (if contains sides input then set_remove input unproduced else unproduced)

unfoldable pub release_empty : StageState → StageState
unfolding release_sides
release_empty s = if is_empty s.pending_empty then s else record s {
  pending_empty = [];
  unproduced_side_inputs = release_sides s.side_inputs s.pending_empty s.unproduced_side_inputs;
}

unfoldable pub count_empty : List (StageId × StageState) → ℕ
count_empty [] = 0
count_empty ((id, s) ∷ rest) = (if is_empty s.pending_empty then 0 else 1) + count_empty rest

unfoldable pub release_empty_input_holds : WatermarkManager → WatermarkManager × ℕ
unfolding refresh release_empty count_empty
release_empty_input_holds m =
    let released = count_empty m.stage_map in
    let cleared = record m { stage_map = modify_all (λ id. release_empty) m.stage_map } in
    (if ltb 0 released then (refresh cleared).0 else cleared, released)
