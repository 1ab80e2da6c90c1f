-- ===== src/Timers/Service.antt =====
-- `TimerService` of flaredb/src/engine/timer.rs: the timers with the processing-time clock.
pub mod Order
pub mod Removal
pub mod Due
pub mod Take
pub mod Table
pub mod Refines
use flare_db.Base.{
  ℕ, ◌+◌, ◌-◌, ℤ, pos, negsuc, pos_part, neg_part, ◌+ℤ◌, ltb_ℤ, leb_ℤ, eqb_ℤ, min_ℤ, Bool, true,
  false, not, ◌&&◌, Option, none, some, List, [], ◌∷◌, ◌++◌, map, length, if◌then◌else◌,
}
use flare_db.Base.Members.{filter}
use flare_db.Timers.{Bytes, TimerKey, TimerEntry, is_event_time, is_processing_time, storage_key}
use flare_db.Timers.Kv.{Io, done, failed, and_then, bytes_eq, KvStore, Serde}
use flare_db.Timers.Store

-- `notified` counts the calls of `notify_waiters`.
pub record TimerService (Kv : Type 0) : Type 0 where
  pub store : Kv
  pub notified : ℕ
  pub origin_epoch_millis : ℤ
  pub manual_now : ℤ

-- `i64::MIN`, which stands for a clock that is not set.
abbrev pub unset : ℤ
unset = negsuc 9_223_372_036_854_775_807

-- A condition of `due_processing_time`.
unfoldable pub is_due : ℤ → TimerEntry → Bool
is_due time timer = is_processing_time timer.domain && leb_ℤ timer.fire_timestamp time

-- `sort_by_key`, which is stable.
unfoldable pub insert_by_fire : TimerEntry → List TimerEntry → List TimerEntry
insert_by_fire e [] = e ∷ []
insert_by_fire e (x ∷ xs) =
    if leb_ℤ e.fire_timestamp x.fire_timestamp then e ∷ x ∷ xs else x ∷ insert_by_fire e xs

unfoldable pub sort_by_fire : List TimerEntry → List TimerEntry
unfolding insert_by_fire
sort_by_fire [] = []
sort_by_fire (x ∷ xs) = insert_by_fire x (sort_by_fire xs)

-- `min` of the fire timestamps.
unfoldable pub min_fire : List TimerEntry → Option ℤ
min_fire [] = none
min_fire (x ∷ xs) = elim (min_fire xs) [
  | none ↦ some x.fire_timestamp
  | some t ↦ some (min_ℤ x.fire_timestamp t)
]

-- `collect` into a HashMap: a key that is there keeps its place.
unfoldable pub put_pending :
    Bytes → Option TimerEntry → List (Bytes × Option TimerEntry) → List (Bytes × Option TimerEntry)
put_pending key w [] = (key, w) ∷ []
put_pending key w ((k, v) ∷ pending) =
    if bytes_eq k key then (key, w) ∷ pending else (k, v) ∷ put_pending key w pending

-- The deletes of some timers.
unfoldable pub deletes : List TimerEntry → List (Bytes × Option TimerEntry)
unfolding put_pending
deletes [] = []
deletes (e ∷ es) = put_pending (storage_key e.key) none (deletes es)

-- What a turn of `run_processing_time` does before it delivers.
pub data Wait : Type 0 where
  retry : Wait
  idle : Wait
  sleep : ℕ → Wait
  deliver : Wait

-- The loop sleeps for `deadline - now` milliseconds, as a u64.
abbrev pub wait_at : ℤ → Io (Option ℤ) → Wait
wait_at time failed = retry
wait_at time (done none) = idle
wait_at time (done (some deadline)) =
    if ltb_ℤ time deadline
    then sleep (pos_part deadline + neg_part time - (pos_part time + neg_part deadline))
    else deliver

-- The receiving end may be gone; then a batch that is sent is lost.
pub record Sender : Type 0 where
  pub closed : Bool
  pub sent : List (List TimerEntry)

abbrev pub send : List TimerEntry → Sender → Sender
send due tx = if tx.closed then tx else record tx { sent = tx.sent ++ (due ∷ []) }

module _ {Kv : Type 0} where
  -- The wall clock has run for `elapsed` milliseconds since the origin.
  unfoldable pub now : TimerService Kv → ℕ → ℤ
  now s elapsed =
      if not (eqb_ℤ s.manual_now unset) then s.manual_now else s.origin_epoch_millis +ℤ pos elapsed

  unfoldable pub is_manual : TimerService Kv → Bool
  is_manual s = not (eqb_ℤ s.manual_now unset)

  unfoldable pub set_processing_time : TimerService Kv → ℤ → TimerService Kv
  set_processing_time s timestamp = record s { manual_now = timestamp; notified = s.notified + 1 }

  -- A write, then `notify_waiters`.
  abbrev pub woken : TimerService Kv → Kv → TimerService Kv
  woken s kv = record s { store = kv; notified = s.notified + 1 }

module _ (serde : Serde) (store : KvStore serde.Blob) where
  abbrev Service : Type 0
  Service = TimerService store.Kv

  unfoldable pub set : Service → TimerEntry → Io Service
  set s entry = and_then (Store.upsert serde store s.store entry) λ kv. done (woken s kv)

  unfoldable pub clear : Service → TimerKey → Io Service
  clear s key =
      and_then (Store.delete serde store s.store (storage_key key)) λ kv. done (woken s kv)

  unfoldable pub apply : Service → List (Bytes × Option TimerEntry) → Io Service
  apply s pending = and_then (Store.apply serde store s.store pending) λ kv. done (woken s kv)

  unfoldable pub due_processing_time : Service → ℤ → Io (List TimerEntry)
  unfolding is_due sort_by_fire
  due_processing_time s time =
      and_then (Store.entries serde store s.store)
        λ all. done (sort_by_fire (filter (is_due time) all))

  unfoldable pub next_processing_deadline : Service → Io (Option ℤ)
  unfolding min_fire
  next_processing_deadline s =
      and_then (Store.entries serde store s.store)
        λ all. done (min_fire (filter (λ timer. is_processing_time timer.domain) all))

  -- Nothing is written when nothing is due.
  unfoldable pub delete_due : Service → List TimerEntry → Io (List TimerEntry × Service)
  unfolding deletes
  delete_due s [] = done ([], s)
  delete_due s (e ∷ es) =
      and_then (Store.apply serde store s.store (deletes (e ∷ es)))
        λ kv. done (e ∷ es, record s { store = kv })

  unfoldable pub take_due_processing_time : Service → ℤ → Io (List TimerEntry × Service)
  unfolding due_processing_time delete_due
  take_due_processing_time s time = and_then (due_processing_time s time) (delete_due s)

  unfoldable pub all_event_time_timers : Service → Io (List TimerEntry)
  all_event_time_timers s =
      and_then (Store.entries serde store s.store)
        λ all. done (filter (λ timer. is_event_time timer.domain) all)

  unfoldable pub delete_all : Service → List TimerEntry → Io Service
  unfolding deletes
  delete_all s [] = done s
  delete_all s (e ∷ es) =
      and_then (Store.apply serde store s.store (deletes (e ∷ es))) λ kv. done (woken s kv)

  abbrev delivered : Sender → List TimerEntry × Service → Io (ℕ × (Service × Sender))
  delivered tx ([], s) = done (0, (s, tx))
  delivered tx (e ∷ es, s) = done (length (e ∷ es), (s, send (e ∷ es) tx))

  unfoldable pub deliver_due_processing_time : Service → ℤ → Sender → Io (ℕ × (Service × Sender))
  unfolding take_due_processing_time
  deliver_due_processing_time s time tx = and_then (take_due_processing_time s time) (delivered tx)

  -- The head of the loop of `run_processing_time`.
  unfoldable pub next_wait : Service → ℕ → Wait
  unfolding now next_processing_deadline
  next_wait s elapsed = wait_at (now s elapsed) (next_processing_deadline s)
