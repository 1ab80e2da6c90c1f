-- ===== src/Base/Members.antt =====
-- Membership in a list, with the position as the evidence, and `Vec::retain` or a filter.
use mathlib.Core.Path.{◌≡◌, sym, ap, ◌∙◌}
use mathlib.Core.Logic.{◌⊎◌, inl, inr}
use mathlib.Core.Bool.{Bool, true}
use mathlib.Core.List.{List, [], ◌∷◌}
use flare_db.Base.Tests.{if◌then◌else◌, Bool-cases}

module _ {ℓ} {A : Type ℓ} where
  pub data IsIn (a : A) : List A → Type ℓ where
    here : (x : A) (xs : List A) → a ≡ x → IsIn a (x ∷ xs)
    there : (x : A) (xs : List A) → IsIn a xs → IsIn a (x ∷ xs)

  pub IsIn-nil : (a : A) → IsIn a [] → ⊥
  IsIn-nil a h = elim h [ ]

  pub IsIn-cases : (a x : A) (xs : List A) → IsIn a (x ∷ xs) → (a ≡ x) ⊎ IsIn a xs
  IsIn-cases a x xs (here _ _ e) = inl e
  IsIn-cases a x xs (there _ _ h) = inr h

  -- `filter`
  unfoldable pub filter : (A → Bool) → List A → List A
  filter p [] = []
  filter p (x ∷ xs) = if p x then x ∷ filter p xs else filter p xs

  pub IsIn-filter :
      (p : A → Bool) (a : A) (xs : List A) → p a ≡ true → IsIn a xs → IsIn a (filter p xs)
  unfolding filter
  IsIn-filter p a [] h i = absurd (IsIn-nil a i)
  IsIn-filter p a (x ∷ xs) h (here _ _ e) = rw (sym (ap p e) ∙ h) (here x _ e)
  IsIn-filter p a (x ∷ xs) h (there _ _ i) = elim (Bool-cases (p x)) [
    | inl t ↦ rw t (there x _ (IsIn-filter p a xs h i))
    | inr f ↦ rw f (IsIn-filter p a xs h i)
  ]

  pub filter-IsIn :
      (p : A → Bool) (a : A) (xs : List A) → IsIn a (filter p xs) → (p a ≡ true) × IsIn a xs
  unfolding filter
  filter-IsIn p a [] i = absurd (IsIn-nil a i)
  filter-IsIn p a (x ∷ xs) i = elim (Bool-cases (p x)) [
    | inl t ↦ elim (IsIn-cases a x (filter p xs) (rw t at i)) [
      | inl e ↦ (ap p e ∙ t, here x xs e)
      | inr j ↦ let rest = filter-IsIn p a xs j in (rest.0, there x xs rest.1)
    ]
    | inr f ↦ let rest = filter-IsIn p a xs (rw f at i) in (rest.0, there x xs rest.1)
  ]
