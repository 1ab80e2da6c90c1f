-- ===== src/Watermark/Bundles/Quiescence.antt =====
-- `upstream_chain_is_quiescent` of flaredb/src/engine/watermark.rs against the upstream relation.
use flare_db.Base.{
  ℕ, zero, suc, ◌≤◌, ◌<◌, ◌≡◌, refl, inl, inr, ◌↔◌, Bool, true, false, ◌||◌, Bool-cases, none, some,
  Option-cases, List, [], ◌∷◌, length, arith,
}
use text.Mathlib.TextEquality.{eq_iff}
use flare_db.Base.Text.{str_eq, str_eq_refl, contains}
use flare_db.Base.Dict.{get}
use flare_db.Watermark.State.{
  StageId, PCollectionId, StageState, WatermarkManager, is_ordinary,
  is_ready_without_upstream_barrier,
}
use flare_db.Watermark.Bundles.{
  producer_is_quiescent, producer_stage, all_quiescent, all_inputs, upstream_chain_is_quiescent,
  stage_is_ready,
}

-- `t` produces an input of `s`, or of a stage upstream of `s`.
pub data Upstream (m : WatermarkManager) (t : StageState) : StageState → Type 0 where
  direct :
      (s : StageState) (i : PCollectionId)
      → contains (all_inputs s) i ≡ true
      → producer_stage m i ≡ some t
      → Upstream m t s
  above :
      (s u : StageState) (i : PCollectionId)
      → contains (all_inputs s) i ≡ true
      → producer_stage m i ≡ some u
      → Upstream m t u
      → Upstream m t s

or_true : (a : Bool) → (a || true) ≡ true
or_true true = refl
or_true false = refl

pub all_quiescent-member :
    (up : StageState → Bool) (m : WatermarkManager) (is : List PCollectionId) (i : PCollectionId)
    (t : StageState)
    → all_quiescent up m is ≡ true
    → contains is i ≡ true
    → producer_stage m i ≡ some t
    → (producer_is_quiescent t ≡ true) × (up t ≡ true)
unfolding all_quiescent contains
all_quiescent-member up m [] i t h c p = ground arith
all_quiescent-member up m (j ∷ is) i t h c p =
    ground (arith, eq_iff j i, all_quiescent-member up m is i t)

all_quiescent-intro :
    (up : StageState → Bool) (m : WatermarkManager) (is : List PCollectionId)
    → ((i : PCollectionId) (t : StageState)
        → contains is i ≡ true
        → producer_stage m i ≡ some t
        → (producer_is_quiescent t ≡ true) × (up t ≡ true))
    → all_quiescent up m is ≡ true
unfolding all_quiescent contains
all_quiescent-intro up m [] h = refl
all_quiescent-intro up m (j ∷ is) h =
    let rest : all_quiescent up m is ≡ true =
      all_quiescent-intro up m is (λ i t c p. h i t (rw c (or_true (str_eq j i))) p) in
    elim (Option-cases (producer_stage m j)) [
      | inl e ↦ rw (e, all_quiescent) rest
      | inr (t, e) ↦ let (q, u) = h j t (rw (str_eq_refl j)) e in rw (e, all_quiescent, q, u, rest)
    ]

-- A chain that the walk accepts is quiescent at every stage upstream.
pub chain-Upstream :
    (fuel : ℕ) (m : WatermarkManager) (s t : StageState)
    → upstream_chain_is_quiescent fuel m s ≡ true
    → Upstream m t s
    → producer_is_quiescent t ≡ true
unfolding upstream_chain_is_quiescent
chain-Upstream zero m s t h r = cc
chain-Upstream (suc fuel) m s t h (direct _ i c p) =
    (all_quiescent-member (upstream_chain_is_quiescent fuel m) m (all_inputs s) i t h c p).0
chain-Upstream (suc fuel) m s t h (above _ u i c p r) =
    chain-Upstream fuel m u t
      (all_quiescent-member (upstream_chain_is_quiescent fuel m) m (all_inputs s) i u h c p).1 r

-- Numbers for the stages that fall from a stage to the producers of its inputs.
abbrev pub IsRanked : (StageId → ℕ) → WatermarkManager → Type 0
IsRanked rank m =
    (id producer : StageId) (s : StageState) (i : PCollectionId)
    → get id m.stage_map ≡ some s
    → contains (all_inputs s) i ≡ true
    → get i m.producers ≡ some producer
    → rank producer < rank id

producer_stage-inversion :
    (m : WatermarkManager) (i : PCollectionId) (u : StageState)
    → producer_stage m i ≡ some u
    → (producer : StageId) × (get i m.producers ≡ some producer)
      × (get producer m.stage_map ≡ some u)
unfolding producer_stage
producer_stage-inversion m i u h = elim (Option-cases (get i m.producers)) [
  | inl e ↦ let absent : none ≡ some u = rw (e, producer_stage) at h in cc
  | inr (producer, e) ↦ (producer, e, rw (e, producer_stage) at h)
]

chain_complete :
    (rank : StageId → ℕ) (fuel : ℕ) (m : WatermarkManager) (id : StageId) (s : StageState)
    → IsRanked rank m
    → get id m.stage_map ≡ some s
    → rank id < fuel
    → ((t : StageState) → Upstream m t s → producer_is_quiescent t ≡ true)
    → upstream_chain_is_quiescent fuel m s ≡ true
unfolding upstream_chain_is_quiescent
chain_complete rank zero m id s ranked g h all = absurd (omega arith)
chain_complete rank (suc fuel) m id s ranked g h all =
    all_quiescent-intro (upstream_chain_is_quiescent fuel m) m (all_inputs s) λ i u c p.
      let (producer, e, k) = producer_stage-inversion m i u p in
      (
        all u (direct s i c p),
        chain_complete rank fuel m producer u ranked k (omega (arith, ranked id producer s i g c e))
            (λ t r. all t (above s u i c p r)),
      )

-- In a graph whose stages can be numbered so that numbers fall upstream and do not pass the count of
-- stages, a gated stage is ready exactly when its own conditions hold and every stage upstream of it,
-- at any distance, has completed and has no bundle, work item, input, re-arm or hold left.
pub stage_is_ready-Upstream :
    (rank : StageId → ℕ) (m : WatermarkManager) (id : StageId) (s : StageState)
    → IsRanked rank m
    → rank id ≤ length m.stage_map
    → get id m.stage_map ≡ some s
    → is_ordinary s.kind ≡ false
    → (stage_is_ready m id ≡ true) ↔ (
        (is_ready_without_upstream_barrier s ≡ true)
        × ((t : StageState) → Upstream m t s → producer_is_quiescent t ≡ true))
unfolding stage_is_ready
stage_is_ready-Upstream rank m id s ranked low g gated =
    let fuel = suc (length m.stage_map) in
    (
      (λ h. elim (Bool-cases (is_ready_without_upstream_barrier s)) [
        | inl r ↦
            let chain : upstream_chain_is_quiescent fuel m s ≡ true =
              rw (g, stage_is_ready, r, gated) at h in
            (r, λ t up. chain-Upstream fuel m s t chain up)
        | inr r ↦ let not_ready : false ≡ true = rw (g, stage_is_ready, r) at h in cc
      ]),
      (λ (r, all).
          let chain = chain_complete rank fuel m id s ranked g (omega arith) all in
          rw (g, stage_is_ready, r, gated) chain),
    )
