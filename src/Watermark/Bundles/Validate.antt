-- ===== src/Watermark/Bundles/Validate.antt =====
-- `validate_bundle_input_watermark` of flaredb/src/engine/watermark.rs.
use flare_db.Base.{
  ◌≡◌, refl, inl, inr, ◌↔◌, ◌≤ℤ◌, Bool, true, false, ◌||◌, none, some, Option-cases, List, [], ◌∷◌,
  ltb_ℤ, arith,
}
use text.Mathlib.TextEquality.{eq_iff}
use flare_db.Base.Text.{str_eq, str_eq_refl, contains}
use flare_db.Base.Dict.{get}
use flare_db.Watermark.State.{Timestamp, StageId, PCollectionId, StageState, WatermarkManager}
use flare_db.Watermark.Bundles.{
  producer_stage, all_inputs, upstream_hold, validate_inputs, validate_bundle_input_watermark,
}

or_true : (a : Bool) → (a || true) ≡ true
or_true true = refl
or_true false = refl

not_past : (w hold : Timestamp) → w ≤ℤ hold → ltb_ℤ hold w ≡ false
not_past w hold h = ground arith

-- The watermark passes no hold on a producer of the listed inputs.
abbrev pub IsWithinHolds : WatermarkManager → Timestamp → List PCollectionId → Type 0
IsWithinHolds m watermark inputs =
    (i : PCollectionId) (u : StageState) (hold : Timestamp)
    → contains inputs i ≡ true
    → producer_stage m i ≡ some u
    → upstream_hold u ≡ some hold
    → watermark ≤ℤ hold

validate_inputs_sound :
    (m : WatermarkManager) (stage : StageId) (w : Timestamp) (is : List PCollectionId)
    → validate_inputs m stage w is ≡ none
    → IsWithinHolds m w is
unfolding validate_inputs contains producer_stage
validate_inputs_sound m stage w [] h i u hold c p e = ground arith
validate_inputs_sound m stage w (j ∷ is) h i u hold c p e = ground (
  arith,
  eq_iff j i,
  λ (k : validate_inputs m stage w is ≡ none) (d : contains is i ≡ true).
      validate_inputs_sound m stage w is k i u hold d p e,
)

validate_inputs_complete :
    (m : WatermarkManager) (stage : StageId) (w : Timestamp) (is : List PCollectionId)
    → IsWithinHolds m w is
    → validate_inputs m stage w is ≡ none
unfolding validate_inputs contains producer_stage
validate_inputs_complete m stage w [] h = refl
validate_inputs_complete m stage w (j ∷ is) h =
    let rest : validate_inputs m stage w is ≡ none =
      validate_inputs_complete m stage w is
        (λ i u hold c p e. h i u hold (rw c (or_true (str_eq j i))) p e) in
    elim (Option-cases (get j m.producers)) [
      | inl e ↦ rw (e, validate_inputs) rest
      | inr (k, e) ↦ elim (Option-cases (get k m.stage_map)) [
        | inl g ↦ rw (e, validate_inputs, g) rest
        | inr (u, g) ↦ elim (Option-cases (upstream_hold u)) [
          | inl a ↦ rw (e, validate_inputs, g, a) rest
          | inr (hold, a) ↦
              let below : w ≤ℤ hold =
                h j u hold (rw (str_eq_refl j)) (rw (e, producer_stage) g) a in
              rw (e, validate_inputs, g, a, not_past w hold below) rest
        ]
      ]
    ]

-- Handing a stage of the map an input watermark is accepted exactly when the watermark passes no
-- hold on a producer of its main or side inputs, where a first bundle that is running or declared
-- holds as an explicit hold does.
pub validate-IsWithinHolds :
    (m : WatermarkManager) (stage : StageId) (s : StageState) (w : Timestamp)
    → get stage m.stage_map ≡ some s
    → (validate_bundle_input_watermark m stage w ≡ none) ↔ IsWithinHolds m w (all_inputs s)
unfolding validate_bundle_input_watermark
validate-IsWithinHolds m stage s w g = (
  (λ h.
      validate_inputs_sound m stage w (all_inputs s)
        (rw (g, validate_bundle_input_watermark) at h)),
  (λ h.
      rw (g, validate_bundle_input_watermark)
        (validate_inputs_complete m stage w (all_inputs s) h)),
)
