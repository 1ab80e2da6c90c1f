-- ===== src/Base/Dict.antt =====
-- A HashMap or BTreeMap keyed by ids, as an association list.
use Prim.Native.String.{String}
use mathlib.Core.Path.{◌≡◌, refl}
use mathlib.Core.Bool.{true}
use mathlib.Core.List.{List, [], ◌∷◌}
use mathlib.Core.Option
use mathlib.Core.Option.{Option, none, some}
use native.Mathlib.Omega.{arith}
use text.Mathlib.TextEquality.{eq_iff}
use flare_db.Base.Tests.{if◌then◌else◌}
use flare_db.Base.Text.{str_eq, contains}

module _ {ℓ} {V : Type ℓ} where
  unfoldable pub get : String → List (String × V) → Option V
  get k [] = none
  get k ((j, v) ∷ m) = if str_eq j k then some v else get k m

  unfoldable pub put : String → V → List (String × V) → List (String × V)
  put k v [] = (k, v) ∷ []
  put k v ((j, w) ∷ m) = if str_eq j k then (k, v) ∷ m else (j, w) ∷ put k v m

  -- Changes the value at a key, through `get_mut`.
  unfoldable pub modify : String → (V → V) → List (String × V) → List (String × V)
  modify k f [] = []
  modify k f ((j, w) ∷ m) = if str_eq j k then (j, f w) ∷ m else (j, w) ∷ modify k f m

  unfoldable pub keys : List (String × V) → List String
  keys [] = []
  keys ((j, w) ∷ m) = j ∷ keys m

  -- `iter_mut` or `values_mut`: changes every value.
  unfoldable pub modify_all : (String → V → V) → List (String × V) → List (String × V)
  modify_all f [] = []
  modify_all f ((j, w) ∷ m) = (j, f j w) ∷ modify_all f m

  pub get-put :
      (k j : String) (v : V) (m : List (String × V))
      → get j (put k v m) ≡ (if str_eq k j then some v else get j m)
  unfolding get put
  get-put k j v [] = refl
  get-put k j v ((i, w) ∷ m) = ground (arith, eq_iff k j, eq_iff i k, eq_iff i j, get-put k j v m)

  pub get-modify :
      (k j : String) (f : V → V) (m : List (String × V))
      → get j (modify k f m) ≡ (if str_eq k j then Option.map f (get k m) else get j m)
  unfolding get modify
  get-modify k j f [] = ground arith
  get-modify k j f ((i, w) ∷ m) =
      ground (arith, eq_iff k j, eq_iff i k, eq_iff i j, get-modify k j f m)

  pub get-modify_all :
      (j : String) (f : String → V → V) (m : List (String × V))
      → get j (modify_all f m) ≡ Option.map (f j) (get j m)
  unfolding get modify_all
  get-modify_all j f [] = refl
  get-modify_all j f ((i, w) ∷ m) = ground (arith, eq_iff i j, get-modify_all j f m)

  pub keys-modify : (k : String) (f : V → V) (m : List (String × V)) → keys (modify k f m) ≡ keys m
  unfolding keys modify
  keys-modify k f [] = refl
  keys-modify k f ((i, w) ∷ m) = ground (arith, keys-modify k f m)

  -- A key that is found is among the keys.
  pub contains-keys :
      (k : String) (m : List (String × V)) (v : V) → get k m ≡ some v → contains (keys m) k ≡ true
  unfolding get keys contains
  contains-keys k [] v h = ground arith
  contains-keys k ((i, w) ∷ m) v h = ground (arith, contains-keys k m v)
