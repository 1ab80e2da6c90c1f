-- ===== src/Timers/Service/Table.antt =====
-- The table from identities to timers that a `TimerService` stands for, and the calls as changes to
-- a table.
use flare_db.Base.{ℤ, Bool, ◌&&◌, Option, none, some, List, [], ◌∷◌, if◌then◌else◌}
use flare_db.Base.Text.{str_eq}
use flare_db.Timers.{Bytes, TimerKey, TimerEntry, storage_key}
use flare_db.Timers.Key.{IsStorable}
use flare_db.Timers.Kv.{Io, done, and_then, bytes_eq, KvStore, Serde}
use flare_db.Timers.Service.{TimerService, set, clear, apply, delete_all, take_due_processing_time}
use flare_db.Timers.Service.Take.{unless_due}

-- `==` on identities.
unfoldable pub key_eq : TimerKey → TimerKey → Bool
key_eq j k =
    str_eq j.transform_id k.transform_id
    && str_eq j.timer_family_id k.timer_family_id
    && str_eq j.tag k.tag
    && str_eq j.window k.window
    && bytes_eq j.user_key k.user_key

abbrev pub Table : Type 0
Table = TimerKey → Option TimerEntry

pub data Change : Type 0 where
  put : TimerEntry → Change
  remove : TimerKey → Change

pub data Op : Type 0 where
  set_timer : TimerEntry → Op
  clear_timer : TimerKey → Op
  apply_batch : List Change → Op
  delete_timers : List TimerEntry → Op
  take_due : ℤ → Op

-- The calls on a table.
unfoldable pub change : Change → Table → Table
change (put e) t j = if key_eq e.key j then some e else t j
change (remove k) t j = if key_eq k j then none else t j

unfoldable pub change_all : List Change → Table → Table
unfolding change
change_all [] t = t
change_all (c ∷ cs) t = change_all cs (change c t)

unfoldable pub remove_all : List TimerEntry → Table → Table
remove_all [] t j = t j
remove_all (e ∷ es) t j = if key_eq e.key j then none else remove_all es t j

unfoldable pub spec : Op → Table → Table
unfolding change change_all remove_all
spec (set_timer e) t j = change (put e) t j
spec (clear_timer k) t j = change (remove k) t j
spec (apply_batch cs) t j = change_all cs t j
spec (delete_timers es) t j = remove_all es t j
spec (take_due time) t j = unless_due time (t j)

unfoldable pub replay : List Op → Table → Table
unfolding spec
replay [] t = t
replay (op ∷ ops) t = replay ops (spec op t)

-- The calls have identities whose parts have lengths that a u32 holds.
pub data AllStorable : List TimerEntry → Type 0 where
  nothing : AllStorable []
  one :
      (e : TimerEntry) (es : List TimerEntry)
      → IsStorable e.key
      → AllStorable es
      → AllStorable (e ∷ es)

abbrev pub IsStorableChange : Change → Type 0
IsStorableChange (put e) = IsStorable e.key
IsStorableChange (remove k) = IsStorable k

pub data AllChangesStorable : List Change → Type 0 where
  nothing : AllChangesStorable []
  one :
      (c : Change) (cs : List Change)
      → IsStorableChange c
      → AllChangesStorable cs
      → AllChangesStorable (c ∷ cs)

abbrev pub IsStorableOp : Op → Type 0
IsStorableOp (set_timer e) = IsStorable e.key
IsStorableOp (clear_timer k) = IsStorable k
IsStorableOp (apply_batch cs) = AllChangesStorable cs
IsStorableOp (delete_timers es) = AllStorable es
IsStorableOp (take_due time) = Unit

pub data AllOpsStorable : List Op → Type 0 where
  nothing : AllOpsStorable []
  one : (op : Op) (ops : List Op) → IsStorableOp op → AllOpsStorable ops → AllOpsStorable (op ∷ ops)

-- The batch of storage keys that a caller hands to `TimerService::apply`.
abbrev pub pending_of : List Change → List (Bytes × Option TimerEntry)
pending_of [] = []
pending_of (put e ∷ cs) = (storage_key e.key, some e) ∷ pending_of cs
pending_of (remove k ∷ cs) = (storage_key k, none) ∷ pending_of cs

-- The call of an operation, and calls in a row, up to the first that fails.
module _ (serde : Serde) (store : KvStore serde.Blob) where
  unfoldable pub perform : TimerService store.Kv → Op → Io (TimerService store.Kv)
  perform s (set_timer e) = set serde store s e
  perform s (clear_timer k) = clear serde store s k
  perform s (apply_batch cs) = apply serde store s (pending_of cs)
  perform s (delete_timers es) = delete_all serde store s es
  perform s (take_due time) =
      and_then (take_due_processing_time serde store s time) λ taken. done taken.1

  unfoldable pub run : TimerService store.Kv → List Op → Io (TimerService store.Kv)
  unfolding perform
  run s [] = done s
  run s (op ∷ ops) = and_then (perform s op) λ next. run next ops
