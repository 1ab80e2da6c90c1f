-- ===== src/Timers/Store/Entries.antt =====
-- What a scan of a `TimerStore` gives: each timer of the table, and nothing else.
use flare_db.Base.{
  ◌≡◌, refl, sym, subst, ap, ◌∙◌, Option, none, some, some_eq, none≢some, List, [], ◌∷◌,
  Option-cases, inl, inr,
}
use flare_db.Base.Members.{IsIn, here, there, IsIn-nil, IsIn-cases}
use flare_db.Timers.{Bytes, TimerKey, TimerEntry, storage_key}
use flare_db.Timers.Key.{IsStorable}
use flare_db.Timers.Kv.{Io, done, failed, and_then, and_then_done, done_eq, KvStore, Serde}
use flare_db.Timers.Store.{parse_all, entries}
use flare_db.Timers.Store.View.{parsed, stored, timer_at, timers}
use flare_db.Timers.Store.Keyed.{IsCell, IsStored}

pub parsed-some {ℓ} : {A : Type ℓ} (x : Io A) (a : A) → parsed x ≡ some a → x ≡ done a
parsed-some (done b) a h = ap done (some_eq b a h)
parsed-some failed a h = absurd (none≢some none a refl h)

module _ (serde : Serde) (store : KvStore serde.Blob) where
  -- Cells that all read back are parsed without an error.
  parse_all_done :
      (pairs : List (Bytes × serde.Blob))
      → ((key : Bytes) (value : serde.Blob)
          → IsIn (key, value) pairs
          → IsCell serde store key value)
      → (all : List TimerEntry) × (parse_all serde store pairs ≡ done all)
  unfolding parse_all
  parse_all_done [] good = ([], refl)
  parse_all_done ((key, value) ∷ pairs) good =
      let first = good key value (here _ _ refl) in
      let rest = parse_all_done pairs λ k v i. good k v (there _ _ i) in
      (
        first.0 ∷ rest.0,
        λ i. and_then (first.1 i) λ entry. and_then (rest.1 i) λ out. done (entry ∷ out),
      )

  -- An entry that is parsed comes from a pair, and each pair gives an entry.
  parse_all_from :
      (pairs : List (Bytes × serde.Blob)) (all : List TimerEntry) (e : TimerEntry)
      → parse_all serde store pairs ≡ done all
      → IsIn e all
      → (key : Bytes) × (value : serde.Blob) × IsIn (key, value) pairs
        × (serde.from_slice value ≡ done e)
  unfolding parse_all
  parse_all_from [] all e h i = absurd (IsIn-nil e (subst (IsIn e) (sym (done_eq _ _ h)) i))
  parse_all_from ((key, value) ∷ pairs) all e h i =
      let first = and_then_done (serde.from_slice value) _ all h in
      let rest = and_then_done (parse_all serde store pairs) _ all first.2 in
      elim (IsIn-cases e first.0 rest.0 (subst (IsIn e) (sym (done_eq _ _ rest.2)) i)) [
        | inl p ↦ (key, value, here _ _ refl, first.1 ∙ ap done (sym p))
        | inr j ↦
            let found = parse_all_from pairs rest.0 e rest.1 j in
            (found.0, found.1, there _ _ found.2, found.3)
      ]

  parse_all_to :
      (pairs : List (Bytes × serde.Blob)) (all : List TimerEntry) (e : TimerEntry) (key : Bytes)
      (value : serde.Blob)
      → parse_all serde store pairs ≡ done all
      → IsIn (key, value) pairs
      → serde.from_slice value ≡ done e
      → IsIn e all
  unfolding parse_all
  parse_all_to [] all e key value h i p = absurd (IsIn-nil _ i)
  parse_all_to ((k, v) ∷ pairs) all e key value h i p =
      let first = and_then_done (serde.from_slice v) _ all h in
      let rest = and_then_done (parse_all serde store pairs) _ all first.2 in
      subst (IsIn e) (done_eq _ _ rest.2) (elim (IsIn-cases (key, value) (k, v) pairs i) [
        | inl q ↦
            here _ _ (done_eq e first.0 (sym p ∙ ap (λ pair. serde.from_slice pair.1) q ∙ first.1))
        | inr j ↦ there _ _ (parse_all_to pairs rest.0 e key value rest.1 j p)
      ])

  -- Reading all the timers fails only if the scan does.
  pub entries_done :
      (kv : store.Kv) (pairs : List (Bytes × serde.Blob))
      → IsStored serde store kv
      → store.scan kv ≡ done pairs
      → (all : List TimerEntry) × (entries serde store kv ≡ done all)
  unfolding entries
  entries_done kv pairs good h =
      let rest = parse_all_done pairs λ k v i. good k v (store.scan_live kv pairs h k v i) in
      (rest.0, (λ i. and_then (h i) (parse_all serde store)) ∙ rest.1)

  -- Each entry that is read is a timer of the table, at its own key.
  pub entries-timer_at :
      (kv : store.Kv) (all : List TimerEntry) (e : TimerEntry)
      → IsStored serde store kv
      → entries serde store kv ≡ done all
      → IsIn e all
      → IsStorable e.key × (timer_at serde store kv (storage_key e.key) ≡ some e)
  unfolding entries timer_at
  entries-timer_at kv all e good h i =
      let scan = and_then_done (store.scan kv) (parse_all serde store) all h in
      let found = parse_all_from scan.0 all e scan.2 i in
      let live = store.scan_live kv scan.0 scan.1 found.0 found.1 found.2 in
      let cell = good found.0 found.1 live in
      let same : cell.0 ≡ e = done_eq _ _ (sym cell.1 ∙ found.3) in
      let table : store.Kv → Bytes → Option TimerEntry = timer_at serde store in
      (
        subst (λ (x : TimerEntry). IsStorable x.key) same cell.3,
        sym (λ k. table kv (storage_key (same k).key))
            ∙ ap (table kv) cell.2
            ∙ ap (stored serde store) live
            ∙ ap parsed found.3,
      )

  -- Each timer of the table is read.
  pub timer_at-entries :
      (kv : store.Kv) (all : List TimerEntry) (e : TimerEntry) (key : Bytes)
      → entries serde store kv ≡ done all
      → timer_at serde store kv key ≡ some e
      → IsIn e all
  unfolding entries timer_at
  timer_at-entries kv all e key h p =
      let scan = and_then_done (store.scan kv) (parse_all serde store) all h in
      elim (Option-cases (store.contents kv key)) [
        | inl n ↦ absurd (none≢some _ e (ap (stored serde store) n) p)
        | inr (value, s) ↦
            parse_all_to scan.0 all e key value scan.2 (store.scan_has kv scan.0 scan.1 key value s)
              (parsed-some (serde.from_slice value) e (sym (ap (stored serde store) s) ∙ p))
      ]

  -- The invariant says that a timer stands at its own key.
  pub timers_own :
      (kv : store.Kv) (j : TimerKey) (e : TimerEntry)
      → IsStored serde store kv
      → timers serde store kv j ≡ some e
      → (storage_key e.key ≡ storage_key j) × IsStorable e.key
  unfolding timers timer_at
  timers_own kv j e good h = elim (Option-cases (store.contents kv (storage_key j))) [
    | inl n ↦ absurd (none≢some _ e (ap (stored serde store) n) h)
    | inr (value, s) ↦
        let cell = good (storage_key j) value s in
        let read = parsed-some (serde.from_slice value) e (sym (ap (stored serde store) s) ∙ h) in
        let same : cell.0 ≡ e = done_eq _ _ (sym cell.1 ∙ read) in
        (
          sym (λ k. storage_key (same k).key) ∙ cell.2,
          subst (λ (x : TimerEntry). IsStorable x.key) same cell.3,
        )
  ]

  -- Identities with one storage key have one timer.
  pub timers_at_key :
      (kv : store.Kv) (j k : TimerKey)
      → storage_key j ≡ storage_key k
      → timers serde store kv j ≡ timers serde store kv k
  unfolding timers
  timers_at_key kv j k h = ap (timer_at serde store kv) h
