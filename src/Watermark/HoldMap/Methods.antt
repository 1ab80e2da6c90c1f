-- ===== src/Watermark/HoldMap/Methods.antt =====
-- `add_hold`, `release_hold` and `min_hold` of flaredb/src/engine/watermark.rs on the multiset of holds.
use flare_db.Base.{
  ℕ, ◌+◌, ◌<◌, ◌≡◌, refl, inl, inr, ◌≤ℤ◌, Bool-cases, Option, none, some, List, [], ◌∷◌, min_ℤ,
  min_ℤ_left, min_ℤ_right, min_ℤ_cases, some_eq, none≢some, sym, arith,
}
use flare_db.Base.Text.{str_eq, str_eq_refl}
use flare_db.Base.Dict.{get, modify, get-modify}
use flare_db.Watermark.State.{
  Timestamp, StageId, Holds, StageState, WatermarkManager, first_key, min_hold, min_option,
}
use flare_db.Watermark.Manager.{ok, ◌>>=◌, stage_mut, add_hold, release_hold, hold_at, unhold_at}
use flare_db.Watermark.HoldMap.{
  hold_count, IsHoldMap, IsEarliest, first_key-IsEarliest, hold_release-add,
}

modify-modify_cancel :
    (id : StageId) (f g : StageState → StageState) (ss : List (StageId × StageState))
    (s : StageState)
    → get id ss ≡ some s
    → g (f s) ≡ s
    → modify id g (modify id f ss) ≡ ss
unfolding get modify
modify-modify_cancel id f g [] s h e = refl
modify-modify_cancel id f g ((j, t) ∷ rest) s h e = elim (Bool-cases (str_eq j id)) [
  | inl b ↦
      let t_s : t ≡ s = some_eq t s (rw b at h) in rw (b, b) (λ k. (j, same_stage t_s k) ∷ rest)
  | inr b ↦ rw (b, b) (λ k. (j, t) ∷ modify-modify_cancel id f g rest s (rw b at h) e k)
]
  where
    same_stage : t ≡ s → g (f t) ≡ t
    same_stage p = rw p e

add_hold_ok :
    (m : WatermarkManager) (id : StageId) (t : Timestamp) (s : StageState)
    → get id m.stage_map ≡ some s
    → add_hold m id t ≡ ok (record m { stage_map = modify id (hold_at t) m.stage_map })
unfolding add_hold
add_hold_ok m id t s g = rw (g, stage_mut)

release_hold_ok :
    (m : WatermarkManager) (id : StageId) (t : Timestamp) (s : StageState)
    → get id m.stage_map ≡ some s
    → release_hold m id t ≡ ok (record m { stage_map = modify id (unhold_at t) m.stage_map })
unfolding release_hold
release_hold_ok m id t s g = rw (g, stage_mut)

-- Releasing a hold that was just added gives the manager back as it was, for a stage whose hold map
-- is well formed.
pub release_hold-add_hold :
    (m : WatermarkManager) (id : StageId) (t : Timestamp) (s : StageState)
    → get id m.stage_map ≡ some s
    → IsHoldMap s.watermark_holds
    → (add_hold m id t >>= λ n. release_hold n id t) ≡ ok m
release_hold-add_hold m id t s g v =
    let n : WatermarkManager = record m { stage_map = modify id (hold_at t) m.stage_map } in
    let held : get id n.stage_map ≡ some (hold_at t s) =
      rw (get-modify id id (hold_at t) m.stage_map, str_eq_refl, g) in
    let back : unhold_at t (hold_at t s) ≡ s =
      λ k. record s { watermark_holds = hold_release-add t s.watermark_holds v k } in
    rw (add_hold_ok m id t s g, release_hold_ok n id t (hold_at t s) held)
      (λ k. ok (record m {
        stage_map = modify-modify_cancel id (hold_at t) (unhold_at t) m.stage_map s g back k;
      }))

-- Held in one of the two maps of the stage.
abbrev pub all_holds : StageState → Timestamp → ℕ
all_holds s t = hold_count t s.watermark_holds + hold_count t s.residual_holds

min_of_both :
    (a b t u : Timestamp) (x y : Holds)
    → IsEarliest a x
    → IsEarliest b y
    → min_ℤ a b ≡ t
    → (0 < hold_count t x + hold_count t y) × (0 < hold_count u x + hold_count u y → t ≤ℤ u)
min_of_both a b t u x y p q e = (
  (elim (min_ℤ_cases a b) [
    | inl c ↦ let a_t : a ≡ t = cc in rw (← a_t) (omega (arith, p.is_held))
    | inr c ↦ let b_t : b ≡ t = cc in rw (← b_t) (omega (arith, q.is_held))
  ]),
  λ h. rw (← e) (ground (arith, p.is_first u, q.is_first u, min_ℤ_left a b, min_ℤ_right a b)),
)

no_key : (m : Holds) (t : Timestamp) → first_key m ≡ none → hold_count t m ≡ 0
unfolding first_key hold_count
no_key [] t h = refl
no_key ((k, n) ∷ m) t h = cc

min_hold-IsLeast :
    (s : StageState) (t u : Timestamp)
    → IsHoldMap s.watermark_holds
    → IsHoldMap s.residual_holds
    → min_hold s ≡ some t
    → (0 < all_holds s t) × (0 < all_holds s u → t ≤ℤ u)
unfolding min_hold
min_hold-IsLeast s t u v w h =
    by_keys (first_key s.watermark_holds) (first_key s.residual_holds) refl refl h
  where
    by_keys :
        (a b : Option Timestamp)
        → first_key s.watermark_holds ≡ a
        → first_key s.residual_holds ≡ b
        → min_option a b ≡ some t
        → (0 < all_holds s t) × (0 < all_holds s u → t ≤ℤ u)
    by_keys none none p q e = absurd (cc)
    by_keys (some a) none p q e =
        let a_t : a ≡ t = some_eq a t e in
        let first = first_key-IsEarliest s.watermark_holds a v p in
        rw (← a_t) (
          omega (arith, first.is_held),
          ground (arith, first.is_first u, no_key s.residual_holds u q),
        )
    by_keys none (some b) p q e =
        let b_t : b ≡ t = some_eq b t e in
        let first = first_key-IsEarliest s.residual_holds b w q in
        rw (← b_t) (
          omega (arith, first.is_held),
          ground (arith, first.is_first u, no_key s.watermark_holds u p),
        )
    by_keys (some a) (some b) p q e =
        min_of_both a b t u s.watermark_holds s.residual_holds
          (first_key-IsEarliest s.watermark_holds a v p)
          (first_key-IsEarliest s.residual_holds b w q) (some_eq (min_ℤ a b) t e)

-- The minimum of a multiset of holds, which has none if nothing is held.
abbrev pub IsMinimum : (Timestamp → ℕ) → Option Timestamp → Type 0
IsMinimum count none = (u : Timestamp) → count u ≡ 0
IsMinimum count (some t) = (0 < count t) × ((u : Timestamp) → 0 < count u → t ≤ℤ u)

unheld : (s : StageState) (u : Timestamp) → min_hold s ≡ none → all_holds s u ≡ 0
unfolding min_hold
unheld s u h = by_keys (first_key s.watermark_holds) (first_key s.residual_holds) refl refl h
  where
    by_keys :
        (a b : Option Timestamp)
        → first_key s.watermark_holds ≡ a
        → first_key s.residual_holds ≡ b
        → min_option a b ≡ none
        → all_holds s u ≡ 0
    by_keys none none p q e =
        omega (arith, no_key s.watermark_holds u p, no_key s.residual_holds u q)
    by_keys (some a) none p q e = absurd (none≢some none a refl (sym e))
    by_keys none (some b) p q e = absurd (none≢some none b refl (sym e))
    by_keys (some a) (some b) p q e = absurd (none≢some none (min_ℤ a b) refl (sym e))

-- For a stage whose hold maps are well formed, `min_hold` is the earliest of the timestamps that its
-- timers and its deferred work hold, and it answers nothing exactly when neither holds any.
pub min_hold-IsMinimum :
    (s : StageState)
    → IsHoldMap s.watermark_holds
    → IsHoldMap s.residual_holds
    → IsMinimum (all_holds s) (min_hold s)
min_hold-IsMinimum s v w = by_answer (min_hold s) refl
  where
    by_answer : (o : Option Timestamp) → min_hold s ≡ o → IsMinimum (all_holds s) o
    by_answer none h = λ u. unheld s u h
    by_answer (some t) h = ((min_hold-IsLeast s t t v w h).0, λ u. (min_hold-IsLeast s t u v w h).1)
