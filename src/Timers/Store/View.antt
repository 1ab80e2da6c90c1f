-- ===== src/Timers/Store/View.antt =====
-- The table of timers that a `TimerStore` holds, and each operation of the store as a change to it.
use flare_db.Base.{
  ◌≡◌, refl, sym, ap, ◌∙◌, Bool, true, false, Option, none, some, List, [], ◌∷◌, if◌then◌else◌,
}
use mathlib.Core.Path.{fun_ext}
use flare_db.Timers.{Bytes, TimerKey, TimerEntry, storage_key}
use flare_db.Timers.Kv.{Io, done, failed, and_then, done_eq, bytes_eq, written, KvStore, Serde}
use flare_db.Timers.Store.{upsert, delete, serialize_writes, apply}

abbrev pub parsed {ℓ} : {A : Type ℓ} → Io A → Option A
parsed (done a) = some a
parsed failed = none

module _ (serde : Serde) (store : KvStore serde.Blob) where
  abbrev pub stored : Option serde.Blob → Option TimerEntry
  stored none = none
  stored (some value) = parsed (serde.from_slice value)

  -- The timer at a storage key, and the timer with an identity.
  unfoldable pub timer_at : store.Kv → Bytes → Option TimerEntry
  timer_at kv key = stored (store.contents kv key)

  unfoldable pub timers : store.Kv → TimerKey → Option TimerEntry
  unfolding timer_at
  timers kv k = timer_at kv (storage_key k)

  abbrev blob_of : Option TimerEntry → Option serde.Blob
  blob_of none = none
  blob_of (some entry) = some (serde.reads_back entry).0

  unfoldable pub serialized : List (Bytes × Option TimerEntry) → List (Bytes × Option serde.Blob)
  serialized [] = []
  serialized ((key, entry) ∷ pending) = (key, blob_of entry) ∷ serialized pending

  -- Serializing the entries of a batch never fails.
  pub serialize_writes-serialized :
      (pending : List (Bytes × Option TimerEntry))
      → serialize_writes serde store pending ≡ done (serialized pending)
  unfolding serialize_writes serialized
  serialize_writes-serialized [] = refl
  serialize_writes-serialized ((key, none) ∷ pending) =
      λ i. and_then (serialize_writes-serialized pending i) λ writes. done ((key, none) ∷ writes)
  serialize_writes-serialized ((key, some entry) ∷ pending) = λ i.
      and_then ((serde.reads_back entry).1 i) λ value.
        and_then (serialize_writes-serialized pending i) λ writes. done ((key, some value) ∷ writes)

  stored-blob_of : (w : Option TimerEntry) → stored (blob_of w) ≡ w
  stored-blob_of none = refl
  stored-blob_of (some entry) = ap parsed (serde.reads_back entry).2

  stored_if :
      (b : Bool) (w : Option TimerEntry) (v : Option serde.Blob)
      → stored (if b then blob_of w else v) ≡ (if b then w else stored v)
  stored_if true w v = stored-blob_of w
  stored_if false w v = refl

  stored-written :
      (pending : List (Bytes × Option TimerEntry)) (f : Bytes → Option serde.Blob) (key : Bytes)
      → stored (written (serialized pending) f key) ≡ written pending (λ k. stored (f k)) key
  unfolding written serialized
  stored-written [] f key = refl
  stored-written ((k, w) ∷ pending) f key =
      stored-written pending (λ j. if bytes_eq k j then blob_of w else f j) key
      ∙ (λ i. written pending (fun_ext (λ j. stored_if (bytes_eq k j) w (f j)) i) key)

  -- What a batch of writes of serialized entries does to the table.
  written_table :
      (kv kv' : store.Kv) (pending : List (Bytes × Option TimerEntry))
      → store.apply kv (serialized pending) ≡ done kv'
      → (key : Bytes) → timer_at kv' key ≡ written pending (timer_at kv) key
  unfolding timer_at
  written_table kv kv' pending h key =
      ap stored (store.apply_writes kv kv' (serialized pending) h key)
      ∙ stored-written pending (store.contents kv) key

  -- A batch that is applied changes the table as it says.
  pub timer_at-apply :
      (kv kv' : store.Kv) (pending : List (Bytes × Option TimerEntry))
      → apply serde store kv pending ≡ done kv'
      → (key : Bytes) → timer_at kv' key ≡ written pending (timer_at kv) key
  unfolding apply written
  timer_at-apply kv kv' [] h key = sym (λ i. timer_at (done_eq kv kv' h i) key)
  timer_at-apply kv kv' (first ∷ pending) h key =
      written_table kv kv' (first ∷ pending)
        (sym (λ i. and_then (serialize_writes-serialized (first ∷ pending) i) (store.apply kv)) ∙ h)
        key

  pub timer_at-upsert :
      (kv kv' : store.Kv) (e : TimerEntry)
      → upsert serde store kv e ≡ done kv'
      → (key : Bytes)
      → timer_at kv' key ≡ (if bytes_eq (storage_key e.key) key then some e else timer_at kv key)
  unfolding upsert written serialized
  timer_at-upsert kv kv' e h key =
      let writes : (Bytes × Option serde.Blob) → Io store.Kv = λ w. store.apply kv (w ∷ []) in
      written_table kv kv' ((storage_key e.key, some e) ∷ [])
        (sym (λ i.
            and_then ((serde.reads_back e).1 i) λ value. writes (storage_key e.key, some value))
          ∙ h)
        key

  pub timer_at-delete :
      (kv kv' : store.Kv) (k : Bytes)
      → delete serde store kv k ≡ done kv'
      → (key : Bytes) → timer_at kv' key ≡ (if bytes_eq k key then none else timer_at kv key)
  unfolding delete written serialized
  timer_at-delete kv kv' k h key = written_table kv kv' ((k, none) ∷ []) h key
