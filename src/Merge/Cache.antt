-- ===== src/Merge/Cache.antt =====
-- The cache of merges in flaredb/src/engine/window.rs. Which key a map gives first is not known: it is
-- the parameter `first_key`.
use flare_db.Base.{
  ℕ, suc, ◌≤◌, ◌≡◌, ◌≢◌, refl, ap, inl, inr, String, Bool, true, false, not, ◌&&◌, Option, none,
  some, true≢false, Bool-cases, List, [], ◌∷◌, length, leb, if◌then◌else◌, arith,
}
use flare_db.Base.Text.{str_eq, str_eq_refl}
use flare_db.Merge.{MergedWindows}

pub record MergeCacheKey : Type 0 where
  pub strategy_id : String
  pub windows : List String

abbrev pub Cache : Type 0
Cache = List (MergeCacheKey × List MergedWindows)

unfoldable pub strings_eq : List String → List String → Bool
strings_eq [] [] = true
strings_eq [] (y ∷ ys) = false
strings_eq (x ∷ xs) [] = false
strings_eq (x ∷ xs) (y ∷ ys) = str_eq x y && strings_eq xs ys

unfoldable pub key_eq : MergeCacheKey → MergeCacheKey → Bool
unfolding strings_eq
key_eq a b = str_eq a.strategy_id b.strategy_id && strings_eq a.windows b.windows

-- `get`, `remove` and `insert` of the map.
unfoldable pub cached : MergeCacheKey → Cache → Option (List MergedWindows)
cached key [] = none
cached key ((other, value) ∷ cache) =
    let rest = cached key cache in if key_eq other key then some value else rest

unfoldable pub evict : MergeCacheKey → Cache → Cache
evict key [] = []
evict key ((other, value) ∷ cache) =
    let rest = evict key cache in if key_eq other key then cache else (other, value) ∷ rest

unfoldable pub store : MergeCacheKey → List MergedWindows → Cache → Cache
store key value [] = (key, value) ∷ []
store key value ((other, old) ∷ cache) =
    let rest = store key value cache in
    if key_eq other key then (key, value) ∷ cache else (other, old) ∷ rest

abbrev pub is_cached : Option (List MergedWindows) → Bool
is_cached none = false
is_cached (some value) = true

abbrev pub evict_first : Option MergeCacheKey → Cache → Cache
evict_first none cache = cache
evict_first (some oldest) cache = evict oldest cache

unfoldable pub insert_merge_cache :
    (Cache → Option MergeCacheKey) → Cache → MergeCacheKey → List MergedWindows → Cache
unfolding cached evict store
insert_merge_cache first_key cache key value =
    if leb 1024 (length cache) && not (is_cached (cached key cache))
    then store key value (evict_first (first_key cache) cache)
    else store key value cache

-- What a map promises of its first key: a map that is not empty has one, and it is a key of the map.
abbrev pub IsFirst : (Cache → Option MergeCacheKey) → Type 0
IsFirst first_key =
    (cache : Cache)
    → cache ≢ []
    → (key : MergeCacheKey) × (first_key cache ≡ some key) × (is_cached (cached key cache) ≡ true)

evict-length :
    (key : MergeCacheKey) (cache : Cache)
    → is_cached (cached key cache) ≡ true
    → suc (length (evict key cache)) ≡ length cache
unfolding cached evict
evict-length key [] h = absurd (true≢false false h refl)
evict-length key ((other, value) ∷ cache) h = elim (Bool-cases (key_eq other key)) [
  | inl t ↦ rw t refl
  | inr f ↦ rw f (ap suc (evict-length key cache (rw f at h)))
]

store-length-cached :
    (key : MergeCacheKey) (value : List MergedWindows) (cache : Cache)
    → is_cached (cached key cache) ≡ true
    → length (store key value cache) ≡ length cache
unfolding cached store
store-length-cached key value [] h = absurd (true≢false false h refl)
store-length-cached key value ((other, old) ∷ cache) h = elim (Bool-cases (key_eq other key)) [
  | inl t ↦ rw t refl
  | inr f ↦ rw f (ap suc (store-length-cached key value cache (rw f at h)))
]

store-length :
    (key : MergeCacheKey) (value : List MergedWindows) (cache : Cache)
    → length (store key value cache) ≤ suc (length cache)
unfolding store
store-length key value [] = omega arith
store-length key value ((other, old) ∷ cache) = elim (Bool-cases (key_eq other key)) [
  | inl t ↦ rw t (omega arith)
  | inr f ↦ rw f (omega (arith, store-length key value cache))
]

strings_eq_refl : (xs : List String) → strings_eq xs xs ≡ true
unfolding strings_eq
strings_eq_refl [] = refl
strings_eq_refl (x ∷ xs) = rw (str_eq_refl x) (strings_eq_refl xs)

pub key_eq_refl : (key : MergeCacheKey) → key_eq key key ≡ true
unfolding key_eq
key_eq_refl key = rw (str_eq_refl key.strategy_id) (strings_eq_refl key.windows)

cached-store :
    (key : MergeCacheKey) (value : List MergedWindows) (cache : Cache)
    → cached key (store key value cache) ≡ some value
unfolding cached store
cached-store key value [] = rw (key_eq_refl key) refl
cached-store key value ((other, old) ∷ cache) = elim (Bool-cases (key_eq other key)) [
  | inl t ↦ rw (t, key_eq_refl key) refl
  | inr f ↦ rw (f, f) (cached-store key value cache)
]

leb-le : (a b : ℕ) → leb a b ≡ false → suc b ≤ a
leb-le a b h = ground arith

nonempty : (cache : Cache) → 1024 ≤ length cache → cache ≢ []
nonempty [] h = absurd (omega arith)
nonempty (entry ∷ cache) h = λ e. absurd (omega (arith, ap length e))

evict_first-length :
    (first_key : Cache → Option MergeCacheKey)
    → IsFirst first_key
    → (cache : Cache) → 1024 ≤ length cache
    → suc (length (evict_first (first_key cache) cache)) ≡ length cache
evict_first-length first_key hf cache h =
    let (oldest, found, there) = hf cache (nonempty cache h) in
    rw found (evict-length oldest cache there)

-- A merge that is put in the cache is found there, and a cache of at most 1024 entries has at most 1024
-- afterwards, if the map gives one of its keys as the first whenever it is not empty.
pub insert_merge_cache-bound :
    (first_key : Cache → Option MergeCacheKey)
    → IsFirst first_key
    → (cache : Cache) (key : MergeCacheKey) (value : List MergedWindows) → length cache ≤ 1024
    → (length (insert_merge_cache first_key cache key value) ≤ 1024)
      × (cached key (insert_merge_cache first_key cache key value) ≡ some value)
unfolding insert_merge_cache
insert_merge_cache-bound first_key hf cache key value h =
    elim (Bool-cases (is_cached (cached key cache))) [
      | inl known ↦ elim (Bool-cases (leb 1024 (length cache))) [
        | inl full ↦
            rw (known, full)
              (
                omega (arith, store-length-cached key value cache known),
                cached-store key value cache,
              )
        | inr room ↦
            rw (room) (
              omega (arith, store-length-cached key value cache known),
              cached-store key value cache,
            )
      ]
      | inr new ↦ elim (Bool-cases (leb 1024 (length cache))) [
        | inl full ↦
            let shorter = evict_first-length first_key hf cache (full_le full) in
            let after = evict_first (first_key cache) cache in
            rw (new, full)
              (omega (arith, shorter, store-length key value after), cached-store key value after)
        | inr room ↦
            let less = leb-le 1024 (length cache) room in
            rw (room)
              (omega (arith, less, store-length key value cache), cached-store key value cache)
      ]
    ]
  where
    full_le : leb 1024 (length cache) ≡ true → 1024 ≤ length cache
    full_le e = ground arith
