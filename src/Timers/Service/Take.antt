-- ===== src/Timers/Service/Take.antt =====
-- Taking the due timers removes just those, so that no timer is taken twice.
use flare_db.Base.{
  ◌≡◌, refl, sym, subst, ap, ◌∙◌, ℤ, ◌≤ℤ◌, true, false, Bool-cases, true≢false, Option,
  Option-cases, none, some, some_eq, none≢some, same_value, List, [], ◌∷◌, inl, inr, arith,
  if◌then◌else◌,
}
use flare_db.Base.Members.{IsIn, here, there, IsIn-nil}
use flare_db.Timers.{Bytes, TimerKey, TimerEntry, storage_key}
use flare_db.Timers.Kv.{
  done, and_then_done, done_eq, bytes_eq, bytes_eq→eq, bytes_eq_refl, KvStore, Serde,
}
use flare_db.Timers.Store
use flare_db.Timers.Store.View.{timer_at, timers, timer_at-apply}
use flare_db.Timers.Store.Keyed.{IsStored, apply-IsStored}
use flare_db.Timers.Store.Entries.{timers_own, timers_at_key}
use flare_db.Timers.Service.{
  TimerService, is_due, deletes, due_processing_time, delete_due, take_due_processing_time,
}
use flare_db.Timers.Service.Removal.{has_key, written-deletes, deletes-IsKeyed}
use flare_db.Timers.Service.Due.{IsHeld, due_iff}

has_key-IsIn :
    (es : List TimerEntry) (key : Bytes)
    → has_key es key ≡ true
    → (e : TimerEntry) × IsIn e es × (storage_key e.key ≡ key)
unfolding has_key
has_key-IsIn [] key h = absurd (true≢false false h refl)
has_key-IsIn (x ∷ xs) key h = elim (Bool-cases (bytes_eq (storage_key x.key) key)) [
  | inl t ↦ (x, here _ _ refl, bytes_eq→eq (storage_key x.key) key t)
  | inr f ↦ let rest = has_key-IsIn xs key (rw f at h) in (rest.0, there _ _ rest.1, rest.2)
]

pub IsIn-has_key :
    (e : TimerEntry) (es : List TimerEntry) → IsIn e es → has_key es (storage_key e.key) ≡ true
unfolding has_key
IsIn-has_key e [] i = absurd (IsIn-nil e i)
IsIn-has_key e (x ∷ xs) (here _ _ p) =
    let same : bytes_eq (storage_key x.key) (storage_key e.key) ≡ true =
      subst (λ (z : TimerEntry). bytes_eq (storage_key z.key) (storage_key e.key) ≡ true) p
        (bytes_eq_refl (storage_key e.key)) in
    rw same refl
IsIn-has_key e (x ∷ xs) (there _ _ i) = ground (arith, IsIn-has_key e xs i)

no_members : (es : List TimerEntry) → ((e : TimerEntry) → IsIn e es → ⊥) → es ≡ []
no_members [] none_in = refl
no_members (e ∷ es) none_in = absurd (none_in e (here _ _ refl))

-- What is left of a timer when the due ones are taken.
abbrev pub unless_due : ℤ → Option TimerEntry → Option TimerEntry
unless_due time none = none
unless_due time (some e) = if is_due time e then none else some e

unless_due-some :
    (time : ℤ) (o : Option TimerEntry) (e : TimerEntry)
    → unless_due time o ≡ some e
    → is_due time e ≡ false
unless_due-some time none e h = absurd (none≢some none e refl h)
unless_due-some time (some x) e h = elim (Bool-cases (is_due time x)) [
  | inl t ↦ absurd (none≢some none e refl (rw t at h))
  | inr f ↦ let same : x ≡ e = some_eq _ _ (rw f at h) in subst (λ z. is_due time z ≡ false) same f
]

-- What is due stays due.
is_due_mono :
    (time' time : ℤ) (e : TimerEntry) → time' ≤ℤ time → is_due time' e ≡ true → is_due time e ≡ true
unfolding is_due
is_due_mono time' time e le h = ground arith

module _ (serde : Serde) (store : KvStore serde.Blob) where
  -- A batch of deletes removes the timers of its keys.
  pub timer_at-deletes :
      (kv kv' : store.Kv) (es : List TimerEntry)
      → Store.apply serde store kv (deletes es) ≡ done kv'
      → (key : Bytes)
      → timer_at serde store kv' key
        ≡ (if has_key es key then none else timer_at serde store kv key)
  timer_at-deletes kv kv' es h key =
      timer_at-apply serde store kv kv' (deletes es) h key
      ∙ written-deletes (timer_at serde store kv) key es

  delete_due_table :
      (s s' : TimerService store.Kv) (due due' : List TimerEntry)
      → IsStored serde store s.store
      → delete_due serde store s due ≡ done (due', s')
      → (due ≡ due')
        × IsStored serde store s'.store
        × ((key : Bytes)
            → timer_at serde store s'.store key
              ≡ (if has_key due key then none else timer_at serde store s.store key))
  unfolding delete_due has_key
  delete_due_table s s' [] due' good h =
      let same = done_eq _ _ h in
      (
        λ k. (same k).0,
        subst (λ (t : TimerService store.Kv). IsStored serde store t.store) (λ k. (same k).1) good,
        λ key. sym (λ k. timer_at serde store (same k).1.store key),
      )
  delete_due_table s s' (e ∷ es) due' good h =
      let written =
        and_then_done (Store.apply serde store s.store (deletes (e ∷ es))) _ (due', s') h in
      let same = done_eq _ _ written.2 in
      (
        λ k. (same k).0,
        subst (λ (t : TimerService store.Kv). IsStored serde store t.store) (λ k. (same k).1)
            (apply-IsStored serde store s.store written.0 (deletes (e ∷ es))
              (deletes-IsKeyed (e ∷ es)) good written.1),
        λ key.
            sym (λ k. timer_at serde store (same k).1.store key)
            ∙ timer_at-deletes s.store written.0 (e ∷ es) written.1 key,
      )

  timers_from :
      (kv kv' : store.Kv) (due : List TimerEntry)
      → ((key : Bytes)
          → timer_at serde store kv' key
            ≡ (if has_key due key then none else timer_at serde store kv key))
      → (j : TimerKey)
      → timers serde store kv' j
        ≡ (if has_key due (storage_key j) then none else timers serde store kv j)
  unfolding timers
  timers_from kv kv' due h j = h (storage_key j)

  -- A timer that is not due is not at the key of one that is.
  not_taken :
      (s : TimerService store.Kv) (time : ℤ) (due : List TimerEntry) (j : TimerKey) (e : TimerEntry)
      → IsStored serde store s.store
      → due_processing_time serde store s time ≡ done due
      → timers serde store s.store j ≡ some e
      → is_due time e ≡ false
      → has_key due (storage_key j) ≡ true
      → ⊥
  not_taken s time due j e good h q f m =
      let other = has_key-IsIn due (storage_key j) m in
      let set = (due_iff serde store s time due other.0 good h).0 other.1 in
      let same : other.0 ≡ e =
        same_value (timers serde store s.store j) other.0 e
          (sym (timers_at_key serde store s.store other.0.key j other.2) ∙ set.0.1) q in
      true≢false (is_due time other.0) set.1 (ap (is_due time) same ∙ f)

  -- A timer is among the keys of those that are due just if it is due.
  taken_or_left :
      (s : TimerService store.Kv) (time : ℤ) (due : List TimerEntry) (j : TimerKey)
      → IsStored serde store s.store
      → due_processing_time serde store s time ≡ done due
      → (if has_key due (storage_key j) then none else timers serde store s.store j)
        ≡ unless_due time (timers serde store s.store j)
  taken_or_left s time due j good h = elim (Option-cases (timers serde store s.store j)) [
    | inl n ↦ rw n (ground arith)
    | inr (e, q) ↦
        let own = timers_own serde store s.store j e good q in
        elim (Bool-cases (is_due time e)) [
          | inl t ↦
              let set : IsHeld serde store s.store e =
                (own.1, timers_at_key serde store s.store e.key j own.0 ∙ q) in
              let among =
                IsIn-has_key e due ((due_iff serde store s time due e good h).1 (set, t)) in
              let found = subst (λ key. has_key due key ≡ true) own.0 among in rw (found, q, t) refl
          | inr f ↦
              let missing : has_key due (storage_key j) ≡ false =
                elim (Bool-cases (has_key due (storage_key j))) [
                  | inr m ↦ m
                  | inl m ↦ absurd (not_taken s time due j e good h q f m)
                ] in
              rw (missing, q, f) refl
        ]
  ]

  -- Taking the due timers leaves the invariant, the timers that are not due, and nothing else.
  pub take_table :
      (s s' : TimerService store.Kv) (time : ℤ) (due : List TimerEntry)
      → IsStored serde store s.store
      → take_due_processing_time serde store s time ≡ done (due, s')
      → IsStored serde store s'.store
        × ((j : TimerKey)
            → timers serde store s'.store j ≡ unless_due time (timers serde store s.store j))
  unfolding take_due_processing_time
  take_table s s' time due good h =
      let found = and_then_done (due_processing_time serde store s time) _ (due, s') h in
      let table = delete_due_table s s' found.0 due good found.2 in
      (
        table.1,
        λ j.
            timers_from s.store s'.store found.0 table.2 j
            ∙ taken_or_left s time found.0 j good found.1,
      )

  -- Once the timers due at a time are taken, no lookup at that time or an earlier one finds a timer
  -- due: none is delivered twice.
  pub take_once :
      (s s' : TimerService store.Kv) (time time' : ℤ) (due due' : List TimerEntry)
      → IsStored serde store s.store
      → take_due_processing_time serde store s time ≡ done (due, s')
      → time' ≤ℤ time
      → due_processing_time serde store s' time' ≡ done due'
      → due' ≡ []
  take_once s s' time time' due due' good h le found = no_members due' λ e i.
      let table = take_table s s' time due good h in
      let due_then = (due_iff serde store s' time' due' e table.0 found).0 i in
      true≢false (is_due time e) (is_due_mono time' time e le due_then.1) (
        unless_due-some time (timers serde store s.store e.key) e
          (sym (table.1 e.key) ∙ due_then.0.1))
