-- ===== src/Watermark/HoldMap.antt =====
-- The watermark holds of flaredb/src/engine/watermark.rs as a multiset of timestamps.
pub mod Methods
use flare_db.Base.{
  ℕ, zero, suc, ◌+◌, ◌-◌, ◌<◌, ◌≤◌, ◌≡◌, refl, ap, ◌∙◌, inl, inr, ◌⊎◌, ◌≤ℤ◌, ◌<ℤ◌, String, Bool,
  true, false, Bool-cases, Option, none, some, Option-cases, List, [], ◌∷◌, if◌then◌else◌, ◌==◌,
  ltb_ℤ, eqb_ℤ, eqb_ℤ→eq, eqb_ℤ_refl, eq_of_parts, min_ℤ, min_ℤ_left, min_ℤ_right, min_ℤ_cases,
  some_eq, arith,
}
use text.Mathlib.TextEquality.{eq_iff}
use flare_db.Base.Text.{str_eq, str_eq_refl}
use flare_db.Base.Dict.{get, modify, get-modify}
use flare_db.Watermark.State.{
  Timestamp, StageId, Holds, StageState, WatermarkManager, hold_add, hold_release, first_key,
  min_hold, min_option,
}
use flare_db.Watermark.Manager.{
  Result, ok, err, ◌>>=◌, stage_mut, add_hold, release_hold, hold_at, unhold_at,
}

-- How often a timestamp is held.
unfoldable pub hold_count : Timestamp → Holds → ℕ
hold_count t [] = 0
hold_count t ((k, n) ∷ m) = if eqb_ℤ k t then n else hold_count t m

-- How a key stands to a timestamp, with what the tests of the two loops say.
data Compared (k t : Timestamp) : Type 0 where
  same : k ≡ t → eqb_ℤ k t ≡ true → Compared k t
  earlier : k <ℤ t → eqb_ℤ k t ≡ false → ltb_ℤ t k ≡ false → Compared k t
  later : t <ℤ k → eqb_ℤ k t ≡ false → ltb_ℤ t k ≡ true → Compared k t

eqb_lt : (k t : Timestamp) → k <ℤ t → eqb_ℤ k t ≡ false
unfolding eqb_ℤ
eqb_lt k t h = ground arith

eqb_gt : (k t : Timestamp) → t <ℤ k → eqb_ℤ k t ≡ false
unfolding eqb_ℤ
eqb_gt k t h = ground arith

ltb_not : (k t : Timestamp) → k <ℤ t → ltb_ℤ t k ≡ false
ltb_not k t h = ground arith

ltb_lt : (k t : Timestamp) → t <ℤ k → ltb_ℤ t k ≡ true
ltb_lt k t h = ground arith

trichotomy : (k t : Timestamp) → (k ≡ t) ⊎ ((k <ℤ t) ⊎ (t <ℤ k))
trichotomy k t = ground (arith, eq_of_parts k t)

compared : (k t : Timestamp) → Compared k t
compared k t = elim (trichotomy k t) [
  | inl e ↦ same e (rw e (eqb_ℤ_refl t))
  | inr (inl h) ↦ earlier h (eqb_lt k t h) (ltb_not k t h)
  | inr (inr h) ↦ later h (eqb_gt k t h) (ltb_lt k t h)
]

abbrev IsBefore : Timestamp → Holds → Type 0
IsBefore t [] = Unit {0}
IsBefore t ((k, n) ∷ m) = t <ℤ k

-- The keys rise and the counts are positive.
abbrev pub IsHoldMap : Holds → Type 0
IsHoldMap [] = Unit {0}
IsHoldMap ((k, n) ∷ m) = (0 < n) × IsBefore k m × IsHoldMap m

hold_add-IsBefore :
    (t k : Timestamp) (m : Holds) → k <ℤ t → IsBefore k m → IsBefore k (hold_add t m)
unfolding hold_add eqb_ℤ
hold_add-IsBefore t k [] h b = h
hold_add-IsBefore t k ((j, n) ∷ m) h b = ground arith

pub hold_add-IsHoldMap : (t : Timestamp) (m : Holds) → IsHoldMap m → IsHoldMap (hold_add t m)
unfolding hold_add
hold_add-IsHoldMap t [] h = omega arith
hold_add-IsHoldMap t ((k, n) ∷ m) h = elim (compared k t) [
  | same e b ↦ rw (b, hold_add) (omega arith, h.1, h.2)
  | earlier l b c ↦
      rw (b, c, hold_add) (h.0, hold_add-IsBefore t k m l h.1, hold_add-IsHoldMap t m h.2)
  | later l b c ↦ rw (b, c, hold_add) (omega arith, l, h)
]

-- A key before all others is not held among them.
hold_count_before :
    (t u : Timestamp) (m : Holds) → IsHoldMap m → IsBefore u m → t ≤ℤ u → hold_count t m ≡ 0
unfolding hold_count eqb_ℤ
hold_count_before t u [] v b h = refl
hold_count_before t u ((k, n) ∷ m) v b h = ground (arith, hold_count_before t k m)

eqb_both : (a b u : Timestamp) → a <ℤ b → eqb_ℤ a u ≡ true → eqb_ℤ b u ≡ false
unfolding eqb_ℤ
eqb_both a b u h k = ground arith

pub hold_count-add :
    (t u : Timestamp) (m : Holds)
    → IsHoldMap m
    → hold_count u (hold_add t m) ≡ hold_count u m + (if eqb_ℤ t u then 1 else 0)
unfolding hold_add hold_count
hold_count-add t u [] v = ground arith
hold_count-add t u ((k, n) ∷ m) v = elim (compared k t) [
  | same e b ↦ rw (b, hold_add, e) (ground arith)
  | earlier l b c ↦ rw (b, c, hold_add) (ground (arith, hold_count-add t u m v.2, eqb_both k t u l))
  | later l b c ↦
      rw (b, c, hold_add)
        (ground (arith, hold_count_before t k m v.2 v.1, eqb_both t k u l, eqb_ℤ→eq t u))
]

IsBefore-trans : (t k : Timestamp) (m : Holds) → t <ℤ k → IsBefore k m → IsBefore t m
IsBefore-trans t k [] h b = tt
IsBefore-trans t k ((j, n) ∷ m) h b = omega arith

hold_release-IsBefore :
    (t k : Timestamp) (m : Holds) → IsHoldMap m → IsBefore k m → IsBefore k (hold_release t m)
unfolding hold_release
hold_release-IsBefore t k [] v b = tt
hold_release-IsBefore t k ((j, n) ∷ m) v b = ground (arith, IsBefore-trans k j m)

pub hold_release-IsHoldMap :
    (t : Timestamp) (m : Holds) → IsHoldMap m → IsHoldMap (hold_release t m)
unfolding hold_release
hold_release-IsHoldMap t [] h = tt
hold_release-IsHoldMap t ((k, n) ∷ m) h =
    ground (arith, hold_release-IsHoldMap t m h.2, hold_release-IsBefore t k m)

pub hold_count-release :
    (t u : Timestamp) (m : Holds)
    → IsHoldMap m
    → hold_count u (hold_release t m) ≡ hold_count u m - (if eqb_ℤ t u then 1 else 0)
unfolding hold_release hold_count
hold_count-release t u [] v = ground arith
hold_count-release t u ((k, n) ∷ m) v = elim (compared k t) [
  | same e b ↦
      rw (b, hold_release, e) (ground (arith, hold_count_before u k m v.2 v.1, eqb_ℤ→eq t u))
  | earlier l b c ↦
      rw (b, hold_release) (ground (arith, hold_count-release t u m v.2, eqb_both k t u l))
  | later l b c ↦
      rw (b, hold_release) (ground (arith, hold_count-release t u m v.2, eqb_both t k u l))
]

-- The first key is held, and nothing earlier is.
pub record IsEarliest (t : Timestamp) (m : Holds) : Type 0 where
  pub is_held : 0 < hold_count t m
  pub is_first : (u : Timestamp) → 0 < hold_count u m → t ≤ℤ u

first_key-le :
    (t u : Timestamp) (m : Holds) → IsHoldMap m → IsBefore t m → 0 < hold_count u m → t ≤ℤ u
unfolding hold_count eqb_ℤ
first_key-le t u [] v b h = absurd (omega arith)
first_key-le t u ((k, n) ∷ m) v b h = ground (arith, first_key-le k u m)

pub first_key-IsEarliest :
    (m : Holds) (t : Timestamp) → IsHoldMap m → first_key m ≡ some t → IsEarliest t m
unfolding hold_count first_key eqb_ℤ
first_key-IsEarliest [] t v h = cc
first_key-IsEarliest ((k, n) ∷ m) t v h =
    let k_t : k ≡ t = some_eq k t h in
    rw (← k_t)
      (record { is_held = ground arith; is_first = λ u p. ground (arith, first_key-le k u m) })

pub hold_release-add : (t : Timestamp) (m : Holds) → IsHoldMap m → hold_release t (hold_add t m) ≡ m
unfolding hold_add hold_release eqb_ℤ
hold_release-add t [] v = ground arith
hold_release-add t ((k, n) ∷ m) v = ground (arith, hold_release-add t m)
