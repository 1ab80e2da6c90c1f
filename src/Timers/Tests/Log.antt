-- ===== src/Timers/Tests/Log.antt =====
-- A key-value store that is a log of writes, newest first, and a serializer that keeps the entry:
-- what the timers assume of both can hold.
use flare_db.Base.{
  ◌≡◌, refl, sym, subst, ◌∙◌, Bool, true, false, not, Bool-cases, Option, none, some, some_eq,
  none≢some, List, [], ◌∷◌, inl, inr, arith, if◌then◌else◌,
}
use flare_db.Base.Members.{
  IsIn, here, there, IsIn-nil, IsIn-cases, filter, IsIn-filter, filter-IsIn,
}
use flare_db.Timers.{Bytes, TimerEntry}
use flare_db.Timers.Kv.{
  done, done_eq, bytes_eq, bytes_eq→eq, bytes_eq_refl, written, KvStore, Serde,
}

abbrev pub plain : Serde
plain = record {
  Blob = TimerEntry;
  to_vec = λ e. done e;
  from_slice = λ e. done e;
  reads_back = λ e. (e, refl, refl);
}

abbrev pub Log : Type 0
Log = List (Bytes × Option TimerEntry)

unfoldable pub read : Log → Bytes → Option TimerEntry
read [] key = none
read ((k, w) ∷ rest) key = if bytes_eq k key then w else read rest key

unfoldable pub push : List (Bytes × Option TimerEntry) → Log → Log
push [] rest = rest
push (w ∷ writes) rest = push writes (w ∷ rest)

abbrev other_key : Bytes → Bytes × TimerEntry → Bool
other_key k p = not (bytes_eq k p.0)

unfoldable pub live : Log → List (Bytes × TimerEntry)
live [] = []
live ((k, none) ∷ rest) = filter (other_key k) (live rest)
live ((k, some v) ∷ rest) = (k, v) ∷ filter (other_key k) (live rest)

read-push :
    (writes : List (Bytes × Option TimerEntry)) (rest : Log) (key : Bytes)
    → read (push writes rest) key ≡ written writes (read rest) key
unfolding read push written
read-push [] rest key = refl
read-push ((k, w) ∷ writes) rest key = read-push writes ((k, w) ∷ rest) key

read-live : (l : Log) (key : Bytes) (v : TimerEntry) → read l key ≡ some v → IsIn (key, v) (live l)
unfolding read live
read-live [] key v h = absurd (none≢some none v refl h)
read-live ((k, none) ∷ rest) key v h = elim (Bool-cases (bytes_eq k key)) [
  | inl t ↦ absurd (none≢some none v refl (rw t at h))
  | inr f ↦
      IsIn-filter (other_key k) (key, v) (live rest) (rw f refl) (read-live rest key v (rw f at h))
]
read-live ((k, some w) ∷ rest) key v h = elim (Bool-cases (bytes_eq k key)) [
  | inl t ↦
      let same : w ≡ v = some_eq w v (rw t at h) in
      here _ _ (λ i. (sym (bytes_eq→eq k key t) i, sym same i))
  | inr f ↦ there _ _ (
      IsIn-filter (other_key k) (key, v) (live rest) (rw f refl) (read-live rest key v (rw f at h)))
]

-- An entry of the rest that is not shadowed.
unshadowed :
    (k key : Bytes) (v : TimerEntry) (w : Option TimerEntry) (rest : Log)
    → (IsIn (key, v) (live rest) → read rest key ≡ some v)
    → IsIn (key, v) (filter (other_key k) (live rest))
    → (if bytes_eq k key then w else read rest key) ≡ some v
unshadowed k key v w rest h i =
    let kept = filter-IsIn (other_key k) (key, v) (live rest) i in
    let f : bytes_eq k key ≡ false = ground arith in rw f (h kept.1)

live-read : (l : Log) (key : Bytes) (v : TimerEntry) → IsIn (key, v) (live l) → read l key ≡ some v
unfolding read live
live-read [] key v i = absurd (IsIn-nil (key, v) i)
live-read ((k, none) ∷ rest) key v i = unshadowed k key v none rest (live-read rest key v) i
live-read ((k, some w) ∷ rest) key v i =
    elim (IsIn-cases (key, v) (k, w) (filter (other_key k) (live rest)) i) [
      | inl p ↦
          let same : bytes_eq k key ≡ true =
            subst (λ (x : Bytes × TimerEntry). bytes_eq x.0 key ≡ true) p (bytes_eq_refl key) in
          rw same (λ j. some (sym p j).1)
      | inr j ↦ unshadowed k key v (some w) rest (live-read rest key v) j
    ]

pub apply-read :
    (l l' : Log) (writes : List (Bytes × Option TimerEntry))
    → done (push writes l) ≡ done l'
    → (key : Bytes) → read l' key ≡ written writes (read l) key
apply-read l l' writes h key = sym (λ i. read (done_eq _ _ h i) key) ∙ read-push writes l key

pub scan-has :
    (l : Log) (pairs : List (Bytes × TimerEntry))
    → done (live l) ≡ done pairs
    → (key : Bytes) (v : TimerEntry) → read l key ≡ some v
    → IsIn (key, v) pairs
scan-has l pairs h key v p = subst (IsIn (key, v)) (done_eq _ _ h) (read-live l key v p)

pub scan-live :
    (l : Log) (pairs : List (Bytes × TimerEntry))
    → done (live l) ≡ done pairs
    → (key : Bytes) (v : TimerEntry) → IsIn (key, v) pairs
    → read l key ≡ some v
scan-live l pairs h key v i = live-read l key v (subst (IsIn (key, v)) (sym (done_eq _ _ h)) i)

abbrev pub log : KvStore TimerEntry
log = record {
  Kv = Log;
  get = λ l key. done (read l key);
  apply = λ l writes. done (push writes l);
  scan = λ l. done (live l);
  contents = read;
  get_reads = λ l key v h. done_eq (read l key) v h;
  apply_writes = apply-read;
  scan_has = scan-has;
  scan_live = scan-live;
}
