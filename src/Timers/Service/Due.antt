-- ===== src/Timers/Service/Due.antt =====
-- Which timers `TimerService` finds due, and how long its loop waits for the next.
use flare_db.Base.{
  ℕ, ◌≡◌, refl, sym, subst, ap, ◌∙◌, ◌↔◌, ℤ, pos, ◌+ℤ◌, ◌≤ℤ◌, leb_ℤ, ltb_ℤ, Bool, true, false,
  Bool-cases, Option, none, some, List, inl, inr, arith, +ℤ_parts, eq_of_parts, ltb→lt, ◌&&◌,
  pos_part, neg_part, ◌+◌, ◌-◌,
}
use flare_db.Base.Members.{IsIn, IsIn-filter, filter-IsIn, filter}
use flare_db.Timers.{Bytes, TimerEntry, is_processing_time, storage_key}
use flare_db.Timers.Key.{IsStorable}
use flare_db.Timers.Kv.{done, and_then, and_then_done, done_eq, KvStore, Serde}
use flare_db.Timers.Store.{entries}
use flare_db.Timers.Store.View.{timers}
use flare_db.Timers.Store.Keyed.{IsStored}
use flare_db.Timers.Store.Entries.{entries_done, entries-timer_at, timer_at-entries}
use flare_db.Timers.Service.{
  TimerService, Wait, retry, idle, sleep, deliver, is_due, sort_by_fire, min_fire, now,
  due_processing_time, next_processing_deadline, wait_at, next_wait,
}
use flare_db.Timers.Service.Order.{
  IsAscending, sort_by_fire-IsIn, IsIn-sort_by_fire, sort_by_fire-IsAscending, min_fire-none,
  min_fire-some,
}

abbrev is_processing : TimerEntry → Bool
is_processing timer = is_processing_time timer.domain

sleep_until :
    (time t : ℤ)
    → ltb_ℤ time t ≡ true
    → time +ℤ pos (pos_part t + neg_part time - (pos_part time + neg_part t)) ≡ t
sleep_until time t h =
    let millis = pos_part t + neg_part time - (pos_part time + neg_part t) in
    eq_of_parts (time +ℤ pos millis) t (omega (arith, +ℤ_parts time (pos millis), ltb→lt _ _ h))

at_least : (t : ℤ) → t ≤ℤ t
at_least t = omega arith

not_before : (time t : ℤ) → ltb_ℤ time t ≡ false → t ≤ℤ time
not_before time t h = ground arith

due_at :
    (e : TimerEntry) (t : ℤ)
    → is_processing e ≡ true
    → e.fire_timestamp ≡ t
    → (time : ℤ) → t ≤ℤ time
    → is_due time e ≡ true
unfolding is_due
due_at e t p q time le =
    let later : leb_ℤ t time ≡ true = ground arith in
    ap (λ b. b && leb_ℤ e.fire_timestamp time) p ∙ ap (λ u. leb_ℤ u time) q ∙ later

not_due_at :
    (e : TimerEntry) (t : ℤ)
    → e.fire_timestamp ≡ t
    → (time : ℤ) → ltb_ℤ time t ≡ true
    → is_due time e ≡ false
unfolding is_due
not_due_at e t q time h =
    let later : leb_ℤ t time ≡ false = ground arith in
    ap (λ u. is_processing e && leb_ℤ u time) q ∙ rw later (ground arith)

module _ (serde : Serde) (store : KvStore serde.Blob) where
  -- An entry that is in the table of a store, at its own identity.
  abbrev pub IsHeld : store.Kv → TimerEntry → Type 0
  IsHeld kv e = IsStorable e.key × (timers serde store kv e.key ≡ some e)

  pub entries_iff :
      (kv : store.Kv) (all : List TimerEntry) (e : TimerEntry)
      → IsStored serde store kv
      → entries serde store kv ≡ done all
      → IsIn e all ↔ IsHeld kv e
  unfolding timers
  entries_iff kv all e good h = (
    entries-timer_at serde store kv all e good h,
    λ held. timer_at-entries serde store kv all e (storage_key e.key) h held.1,
  )

  -- The timers found due, for a lookup that did not fail.
  pub due_iff :
      (s : TimerService store.Kv) (time : ℤ) (due : List TimerEntry) (e : TimerEntry)
      → IsStored serde store s.store
      → due_processing_time serde store s time ≡ done due
      → IsIn e due ↔ (IsHeld s.store e × (is_due time e ≡ true))
  unfolding due_processing_time
  due_iff s time due e good h =
      let all = and_then_done (entries serde store s.store) _ due h in
      let held = entries_iff s.store all.0 e good all.1 in
      let same = done_eq _ _ all.2 in
      (
        λ i.
            let j =
              filter-IsIn (is_due time) e all.0
                (sort_by_fire-IsIn e _ (subst (IsIn e) (sym same) i)) in
            (held.0 j.1, j.0),
        λ p.
            subst (IsIn e) same
              (IsIn-sort_by_fire e _ (IsIn-filter (is_due time) e all.0 p.1 (held.1 p.0))),
      )

  -- In a store whose cells read back, and whose scan does not fail, the lookup of due timers does not
  -- fail: it gives, earliest first, the processing-time timers whose time has come, and no others.
  pub due_processing_time_exact :
      (s : TimerService store.Kv) (time : ℤ) (pairs : List (Bytes × serde.Blob))
      → IsStored serde store s.store
      → store.scan s.store ≡ done pairs
      → (due : List TimerEntry) × (due_processing_time serde store s time ≡ done due)
        × IsAscending due
        × ((e : TimerEntry) → IsIn e due ↔ (IsHeld s.store e × (is_due time e ≡ true)))
  unfolding due_processing_time
  due_processing_time_exact s time pairs good h =
      let all = entries_done serde store s.store pairs good h in
      let found : due_processing_time serde store s time
          ≡ done (sort_by_fire (filter (is_due time) all.0)) =
        λ i. and_then (all.1 i) λ es. done (sort_by_fire (filter (is_due time) es)) in
      (
        sort_by_fire (filter (is_due time) all.0),
        found,
        sort_by_fire-IsAscending (filter (is_due time) all.0),
        λ e. due_iff s time (sort_by_fire (filter (is_due time) all.0)) e good found,
      )

  -- What a wait promises at a time.
  abbrev pub IsRight : store.Kv → ℤ → Wait → Type 0
  IsRight kv time retry = ⊥
  IsRight kv time idle = (e : TimerEntry) → IsHeld kv e → is_processing_time e.domain ≡ true → ⊥
  IsRight kv time (sleep millis) =
      ((e : TimerEntry)
        → IsHeld kv e
        → is_processing_time e.domain ≡ true
        → time +ℤ pos millis ≤ℤ e.fire_timestamp)
      × (e : TimerEntry) × IsHeld kv e
      × (is_due (time +ℤ pos millis) e ≡ true)
      × (is_due time e ≡ false)
  IsRight kv time deliver = (e : TimerEntry) × IsHeld kv e × (is_due time e ≡ true)

  wait-IsRight :
      (kv : store.Kv) (time : ℤ) (all : List TimerEntry) (deadline : Option ℤ)
      → ((e : TimerEntry) → IsIn e all ↔ IsHeld kv e)
      → min_fire (filter is_processing all) ≡ deadline
      → IsRight kv time (wait_at time (done deadline))
  wait-IsRight kv time all none held h = λ e set p.
      min_fire-none (filter is_processing all) h e
        (IsIn-filter is_processing e all p ((held e).1 set))
  wait-IsRight kv time all (some t) held h =
      let least = min_fire-some (filter is_processing all) t h in
      let e = least.1 in
      let chosen = filter-IsIn is_processing e all least.2 in
      let set = (held e).0 chosen.1 in
      elim (Bool-cases (ltb_ℤ time t)) [
        | inl c ↦ rw c (
          λ x other p.
              subst (λ u. u ≤ℤ x.fire_timestamp) (sym (sleep_until time t c))
                (least.0 x (IsIn-filter is_processing x all p ((held x).1 other))),
          e,
          set,
          subst (λ u. is_due u e ≡ true) (sym (sleep_until time t c))
              (due_at e t chosen.0 least.3 t (at_least t)),
          not_due_at e t least.3 time c,
        )
        | inr c ↦ rw c (e, set, due_at e t chosen.0 least.3 time (not_before time t c))
      ]

  -- In a store whose cells read back, and whose scan does not fail, the loop waits for a change only
  -- if no processing-time timer is set, it sleeps until the earliest one and not past any other, and
  -- it delivers at once only if one is due.
  pub next_wait-IsRight :
      (s : TimerService store.Kv) (elapsed : ℕ) (pairs : List (Bytes × serde.Blob))
      → IsStored serde store s.store
      → store.scan s.store ≡ done pairs
      → IsRight s.store (now s elapsed) (next_wait serde store s elapsed)
  unfolding next_wait next_processing_deadline
  next_wait-IsRight s elapsed pairs good h =
      let all = entries_done serde store s.store pairs good h in
      let time = now s elapsed in
      subst
        (λ es.
          IsRight s.store time
            (wait_at time (and_then es λ xs. done (min_fire (filter is_processing xs)))))
        (sym all.1)
        (wait-IsRight s.store time all.0 (min_fire (filter is_processing all.0))
          (λ e. entries_iff s.store all.0 e good all.1) refl)
