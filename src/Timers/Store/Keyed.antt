-- ===== src/Timers/Store/Keyed.antt =====
-- The invariant of a `TimerStore`: each cell reads back as an entry that stands at its own key.
use flare_db.Base.{
  ◌≡◌, refl, sym, subst, ◌∙◌, Option, none, some, some_eq, none≢some, List, [], ◌∷◌, if◌then◌else◌,
  Bool-cases, inl, inr,
}
use flare_db.Timers.{Bytes, TimerEntry, storage_key}
use flare_db.Timers.Key.{IsStorable}
use flare_db.Timers.Kv.{Io, done, and_then, done_eq, bytes_eq, bytes_eq→eq, written, KvStore, Serde}
use flare_db.Timers.Store.{upsert, delete, apply}
use flare_db.Timers.Store.View.{serialized, serialize_writes-serialized}

-- A batch whose entries stand at their own keys.
pub data IsKeyed : List (Bytes × Option TimerEntry) → Type 0 where
  nothing : IsKeyed []
  removal :
      (key : Bytes) (pending : List (Bytes × Option TimerEntry))
      → IsKeyed pending
      → IsKeyed ((key, none) ∷ pending)
  entry :
      (e : TimerEntry) (pending : List (Bytes × Option TimerEntry))
      → IsStorable e.key
      → IsKeyed pending
      → IsKeyed ((storage_key e.key, some e) ∷ pending)

module _ (serde : Serde) (store : KvStore serde.Blob) where
  abbrev pub IsCell : Bytes → serde.Blob → Type 0
  IsCell key value =
      (e : TimerEntry) × (serde.from_slice value ≡ done e)
      × (storage_key e.key ≡ key)
      × IsStorable e.key

  abbrev pub IsStored : store.Kv → Type 0
  IsStored kv =
      (key : Bytes) (value : serde.Blob) → store.contents kv key ≡ some value → IsCell key value

  -- One write more.
  if-IsCell :
      (k j : Bytes) (w v : Option serde.Blob)
      → ((b : serde.Blob) → w ≡ some b → IsCell k b)
      → ((b : serde.Blob) → v ≡ some b → IsCell j b)
      → (b : serde.Blob) → (if bytes_eq k j then w else v) ≡ some b
      → IsCell j b
  if-IsCell k j w v hw hv b h = elim (Bool-cases (bytes_eq k j)) [
    | inl t ↦ let cell = hw b (rw t at h) in (cell.0, cell.1, cell.2 ∙ bytes_eq→eq k j t, cell.3)
    | inr f ↦ hv b (rw f at h)
  ]

  written-IsCell :
      (pending : List (Bytes × Option TimerEntry)) (f : Bytes → Option serde.Blob)
      → IsKeyed pending
      → ((key : Bytes) (b : serde.Blob) → f key ≡ some b → IsCell key b)
      → (key : Bytes) (b : serde.Blob) → written (serialized serde store pending) f key ≡ some b
      → IsCell key b
  unfolding written serialized
  written-IsCell _ f nothing hf key b h = hf key b h
  written-IsCell _ f (removal k pending rest) hf key b h =
      written-IsCell pending _ rest
        (λ j. if-IsCell k j none (f j) (λ c e. absurd (none≢some none c refl e)) (hf j)) key b h
  written-IsCell _ f (entry e pending fits rest) hf key b h =
      let cell : IsCell (storage_key e.key) (serde.reads_back e).0 =
        (e, (serde.reads_back e).2, refl, fits) in
      written-IsCell pending _ rest
        (λ j.
          if-IsCell (storage_key e.key) j (some (serde.reads_back e).0) (f j)
            (λ c p. subst (IsCell (storage_key e.key)) (some_eq _ _ p) cell) (hf j))
        key b h

  -- A batch of writes of serialized entries keeps the invariant.
  pub kv_apply-IsStored :
      (kv kv' : store.Kv) (pending : List (Bytes × Option TimerEntry))
      → IsKeyed pending
      → IsStored kv
      → store.apply kv (serialized serde store pending) ≡ done kv'
      → IsStored kv'
  kv_apply-IsStored kv kv' pending keyed good h key value p =
      written-IsCell pending (store.contents kv) keyed good key value
        (sym (store.apply_writes kv kv' (serialized serde store pending) h key) ∙ p)

  pub apply-IsStored :
      (kv kv' : store.Kv) (pending : List (Bytes × Option TimerEntry))
      → IsKeyed pending
      → IsStored kv
      → apply serde store kv pending ≡ done kv'
      → IsStored kv'
  unfolding apply
  apply-IsStored kv kv' [] keyed good h = subst IsStored (done_eq kv kv' h) good
  apply-IsStored kv kv' (first ∷ pending) keyed good h =
      kv_apply-IsStored kv kv' (first ∷ pending) keyed good (
        sym (λ i.
          and_then (serialize_writes-serialized serde store (first ∷ pending) i) (store.apply kv))
        ∙ h)

  pub upsert-IsStored :
      (kv kv' : store.Kv) (e : TimerEntry)
      → IsStorable e.key
      → IsStored kv
      → upsert serde store kv e ≡ done kv'
      → IsStored kv'
  unfolding upsert serialized
  upsert-IsStored kv kv' e fits good h =
      let writes : (Bytes × Option serde.Blob) → Io store.Kv = λ w. store.apply kv (w ∷ []) in
      kv_apply-IsStored kv kv' ((storage_key e.key, some e) ∷ []) (entry e [] fits nothing) good (
        sym
          (λ i. and_then ((serde.reads_back e).1 i) λ value. writes (storage_key e.key, some value))
        ∙ h)

  pub delete-IsStored :
      (kv kv' : store.Kv) (k : Bytes)
      → IsStored kv
      → delete serde store kv k ≡ done kv'
      → IsStored kv'
  unfolding delete serialized
  delete-IsStored kv kv' k good h =
      kv_apply-IsStored kv kv' ((k, none) ∷ []) (removal k [] nothing) good h
