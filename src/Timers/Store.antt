-- ===== src/Timers/Store.antt =====
-- `TimerStore` of flaredb/src/engine/timer.rs, over any key-value store and serializer.
pub mod View
pub mod Keyed
pub mod Entries
use flare_db.Base.{Option, none, some, List, [], ◌∷◌}
use flare_db.Timers.{Bytes, TimerKey, TimerEntry, storage_key}
use flare_db.Timers.Kv.{Io, done, failed, and_then, KvStore, Serde}

module _ (serde : Serde) (store : KvStore serde.Blob) where
  unfoldable pub upsert : store.Kv → TimerEntry → Io store.Kv
  upsert kv entry =
      and_then (serde.to_vec entry)
        λ value. store.apply kv ((storage_key entry.key, some value) ∷ [])

  unfoldable pub delete : store.Kv → Bytes → Io store.Kv
  delete kv key = store.apply kv ((key, none) ∷ [])

  -- The loop of `apply`, which serializes the entries.
  unfoldable pub serialize_writes :
      List (Bytes × Option TimerEntry) → Io (List (Bytes × Option serde.Blob))
  serialize_writes [] = done []
  serialize_writes ((key, none) ∷ pending) =
      and_then (serialize_writes pending) λ writes. done ((key, none) ∷ writes)
  serialize_writes ((key, some entry) ∷ pending) =
      and_then (serde.to_vec entry)
        λ value. and_then (serialize_writes pending) λ writes. done ((key, some value) ∷ writes)

  -- `TimerStore::apply`; the entries of the HashMap stand in the order in which it gives them.
  unfoldable pub apply : store.Kv → List (Bytes × Option TimerEntry) → Io store.Kv
  unfolding serialize_writes
  apply kv [] = done kv
  apply kv (first ∷ pending) =
      and_then (serialize_writes (first ∷ pending)) λ writes. store.apply kv writes

  unfoldable pub get : store.Kv → Bytes → Io (Option TimerEntry)
  get kv key = and_then (store.get kv key) λ found. elim found [
    | none ↦ done none
    | some value ↦ and_then (serde.from_slice value) λ entry. done (some entry)
  ]

  -- The loop of `entries`.
  unfoldable pub parse_all : List (Bytes × serde.Blob) → Io (List TimerEntry)
  parse_all [] = done []
  parse_all ((key, value) ∷ pairs) =
      and_then (serde.from_slice value)
        λ entry. and_then (parse_all pairs) λ out. done (entry ∷ out)

  unfoldable pub entries : store.Kv → Io (List TimerEntry)
  unfolding parse_all
  entries kv = and_then (store.scan kv) parse_all
