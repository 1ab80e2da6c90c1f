-- ===== src/Base/Text.antt =====
-- Rust's `String` order, which is that of the code points, and sets of ids as lists.
use Prim.Native.Nat.{compare, Ordering}
use Prim.Native.Char.{code}
use Prim.Native.String.{String}
use mathlib.Core.Path.{◌≡◌, refl}
use mathlib.Core.Logic.{inl, inr}
use mathlib.Core.Bool.{Bool, true, false, ◌||◌}
use mathlib.Core.List.{List, [], ◌∷◌}
use native.Mathlib.Omega.{arith}
use text.Mathlib.Text
use text.Mathlib.TextEquality.{eq_iff}
use flare_db.Base.Tests.{if◌then◌else◌, Bool-cases}

-- Equality of ids.
abbrev pub str_eq : String → String → Bool
str_eq a b = Text.◌==◌ a b

pub str_eq→eq : (a b : String) → str_eq a b ≡ true → a ≡ b
str_eq→eq a b h = (eq_iff a b).0 h

pub str_eq_refl : (a : String) → str_eq a a ≡ true
str_eq_refl a = (eq_iff a a).1 refl

-- `a <= b` for two strings.
unfoldable pub str_le : String → String → Bool
str_le String.[] b = true
str_le (String.◌∷◌ c s) String.[] = false
str_le (String.◌∷◌ c s) (String.◌∷◌ d t) =
    let rest = str_le s t in
    elim (compare (code c) (code d)) [
      | Ordering.lt ↦ true
      | Ordering.eq ↦ rest
      | Ordering.gt ↦ false
    ]

-- Whether a vector or a set of ids has an id.
unfoldable pub contains : List String → String → Bool
contains [] a = false
contains (x ∷ xs) a = str_eq x a || contains xs a

-- `BTreeSet::insert` and `BTreeSet::remove`; the order of a set is never read.
unfoldable pub set_insert : String → List String → List String
unfolding contains
set_insert a xs = if contains xs a then xs else a ∷ xs

unfoldable pub set_remove : String → List String → List String
set_remove a [] = []
set_remove a (x ∷ xs) = if str_eq x a then set_remove a xs else x ∷ set_remove a xs

-- `Vec::sort`.
unfoldable pub insert_sorted : String → List String → List String
insert_sorted a [] = a ∷ []
insert_sorted a (x ∷ xs) = if str_le a x then a ∷ x ∷ xs else x ∷ insert_sorted a xs

unfoldable pub sort : List String → List String
unfolding insert_sorted
sort [] = []
sort (x ∷ xs) = insert_sorted x (sort xs)

-- `Vec::dedup`: drops an id equal to the one kept before it.
unfoldable pub dedup_from : String → List String → List String
dedup_from a [] = []
dedup_from a (x ∷ xs) = if str_eq a x then dedup_from a xs else x ∷ dedup_from x xs

unfoldable pub dedup : List String → List String
unfolding dedup_from
dedup [] = []
dedup (x ∷ xs) = x ∷ dedup_from x xs

pub contains-set_insert :
    (a b : String) (xs : List String)
    → contains (set_insert a xs) b ≡ (if str_eq a b then true else contains xs b)
unfolding set_insert
contains-set_insert a b xs = elim (Bool-cases (contains xs a)) [
  | inl h ↦ elim (Bool-cases (str_eq a b)) [
    | inl e ↦ rw (h, e) (let p : a ≡ b = str_eq→eq a b e in rw (← p) h)
    | inr e ↦ rw (h, e)
  ]
  | inr h ↦ rw h (ground arith)
]

pub contains-set_remove :
    (a b : String) (xs : List String)
    → contains (set_remove a xs) b ≡ (if str_eq a b then false else contains xs b)
unfolding contains set_remove
contains-set_remove a b [] = ground arith
contains-set_remove a b (x ∷ xs) =
    ground (arith, contains-set_remove a b xs, eq_iff x a, eq_iff x b, eq_iff a b)

pub contains-insert_sorted :
    (a b : String) (xs : List String)
    → contains (insert_sorted a xs) b ≡ (str_eq a b || contains xs b)
unfolding contains insert_sorted
contains-insert_sorted a b [] = refl
contains-insert_sorted a b (x ∷ xs) = ground (arith, contains-insert_sorted a b xs)

-- Sorting keeps the members.
pub contains-sort : (b : String) (xs : List String) → contains (sort xs) b ≡ contains xs b
unfolding contains sort
contains-sort b [] = refl
contains-sort b (x ∷ xs) = ground (arith, contains-sort b xs, contains-insert_sorted x b (sort xs))

contains-dedup_from :
    (a b : String) (xs : List String)
    → (str_eq a b || contains (dedup_from a xs) b) ≡ (str_eq a b || contains xs b)
unfolding contains dedup_from
contains-dedup_from a b [] = refl
contains-dedup_from a b (x ∷ xs) = ground (
  arith,
  contains-dedup_from a b xs,
  contains-dedup_from x b xs,
  eq_iff a x,
  eq_iff a b,
  eq_iff x b,
)

-- So does dropping repeated ids.
pub contains-dedup : (b : String) (xs : List String) → contains (dedup xs) b ≡ contains xs b
unfolding contains dedup
contains-dedup b [] = refl
contains-dedup b (x ∷ xs) = contains-dedup_from x b xs
