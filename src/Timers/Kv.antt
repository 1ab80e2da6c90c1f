-- ===== src/Timers/Kv.antt =====
-- What the timers use of other code: the `KvStore` trait of flaredb/src/engine/kv.rs, which SlateDB
-- implements, and the JSON form of an entry. Both can fail; what they do is a parameter.
use flare_db.Base.{
  ◌≡◌, refl, Bool, true, false, ◌&&◌, Option, some, List, [], ◌∷◌, ◌==◌, if◌then◌else◌, arith,
}
use flare_db.Base.Members.{IsIn}
use flare_db.Timers.{Bytes, TimerEntry}

-- `anyhow::Result`, without the message of the error.
pub data Io {ℓ} (A : Type ℓ) : Type ℓ where
  done : A → Io A
  failed : Io A

-- The `?` operator.
abbrev pub and_then {ℓ κ} : {A : Type ℓ} {B : Type κ} → Io A → (A → Io B) → Io B
and_then (done a) next = next a
and_then failed next = failed

pub done_eq {ℓ} : {A : Type ℓ} (a b : A) → done a ≡ done b → a ≡ b
done_eq a b h = cc

pub failed≢done {ℓ} : {A : Type ℓ} (x : Io A) (a : A) → x ≡ failed → x ≡ done a → ⊥
failed≢done x a h k = cc

-- What comes before a `?` that did not fail did not fail.
pub and_then_done {ℓ κ} :
    {A : Type ℓ} {B : Type κ} (x : Io A) (next : A → Io B) (b : B)
    → and_then x next ≡ done b
    → (a : A) × (x ≡ done a) × (next a ≡ done b)
and_then_done (done a) next b h = (a, refl, h)
and_then_done failed next b h = absurd (failed≢done failed b refl h)

unfoldable pub bytes_eq : Bytes → Bytes → Bool
bytes_eq [] [] = true
bytes_eq [] (y ∷ ys) = false
bytes_eq (x ∷ xs) [] = false
bytes_eq (x ∷ xs) (y ∷ ys) = (x == y) && bytes_eq xs ys

pub bytes_eq→eq : (x y : Bytes) → bytes_eq x y ≡ true → x ≡ y
unfolding bytes_eq
bytes_eq→eq [] [] h = refl
bytes_eq→eq [] (y ∷ ys) h = ground arith
bytes_eq→eq (x ∷ xs) [] h = ground arith
bytes_eq→eq (x ∷ xs) (y ∷ ys) h = ground (arith, bytes_eq→eq xs ys)

pub bytes_eq_refl : (x : Bytes) → bytes_eq x x ≡ true
unfolding bytes_eq
bytes_eq_refl [] = refl
bytes_eq_refl (x ∷ xs) = ground (arith, bytes_eq_refl xs)

-- A batch of upserts and deletes on a map: the last write to a key wins.
unfoldable pub written {ℓ} :
    {V : Type ℓ} → List (Bytes × Option V) → (Bytes → Option V) → Bytes → Option V
written [] f key = f key
written ((k, w) ∷ writes) f key = written writes (λ j. if bytes_eq k j then w else f j) key

-- The operations, and what they mean for the map that the store holds.
pub record KvStore (Blob : Type 0) : Type 1 where
  pub Kv : Type 0
  pub get : Kv → Bytes → Io (Option Blob)
  pub apply : Kv → List (Bytes × Option Blob) → Io Kv
  pub scan : Kv → Io (List (Bytes × Blob))
  pub contents : Kv → Bytes → Option Blob
  pub get_reads :
      (kv : Kv) (key : Bytes) (v : Option Blob) → get kv key ≡ done v → contents kv key ≡ v
  pub apply_writes :
      (kv kv' : Kv) (writes : List (Bytes × Option Blob))
      → apply kv writes ≡ done kv'
      → (key : Bytes) → contents kv' key ≡ written writes (contents kv) key
  pub scan_has :
      (kv : Kv) (pairs : List (Bytes × Blob))
      → scan kv ≡ done pairs
      → (key : Bytes) (v : Blob) → contents kv key ≡ some v
      → IsIn (key, v) pairs
  pub scan_live :
      (kv : Kv) (pairs : List (Bytes × Blob))
      → scan kv ≡ done pairs
      → (key : Bytes) (v : Blob) → IsIn (key, v) pairs
      → contents kv key ≡ some v

-- `serde_json::to_vec` and `from_slice` at a timer entry: what is written reads back.
pub record Serde : Type 1 where
  pub Blob : Type 0
  pub to_vec : TimerEntry → Io Blob
  pub from_slice : Blob → Io TimerEntry
  pub reads_back : (e : TimerEntry) → (v : Blob) × (to_vec e ≡ done v) × (from_slice v ≡ done e)
