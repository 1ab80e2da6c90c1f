-- ===== src/Timers/Tests.antt =====
-- The timers over a store that is a log of writes, and each theorem about them at a concrete input.
pub mod Log
use flare_db.Base.{◌≡◌, refl, ◌↔◌, pos, true, none, some, none≢some, List, [], ◌∷◌, arith}
use flare_db.Base.Members.{IsIn}
use flare_db.Base.Utf8.{as_bytes, encode_code}
use flare_db.Timers.{Bytes, TimerEntry, processing_time, storage_key}
use flare_db.Timers.Key.{Fit, none_left, part, IsStorable, storage_key→eq}
use flare_db.Timers.Kv.{done, KvStore}
use flare_db.Timers.Store.View.{timers}
use flare_db.Timers.Store.Keyed.{IsStored}
use flare_db.Timers.Service.{
  TimerService, unset, sleep, is_due, now, next_wait, due_processing_time, take_due_processing_time,
}
use flare_db.Timers.Service.Due.{IsHeld, IsRight, due_processing_time_exact, next_wait-IsRight}
use flare_db.Timers.Service.Order.{IsAscending}
use flare_db.Timers.Service.Take.{take_once}
use flare_db.Timers.Service.Table.{
  Op, set_timer, take_due, AllOpsStorable, nothing, one, replay, run,
}
use flare_db.Timers.Service.Refines.{HoldsTable, run_refines}
use flare_db.Timers.Tests.Log.{plain, log}

abbrev early : TimerEntry
early = record {
  key = record {
    transform_id = "t";
    timer_family_id = "f";
    tag = "";
    window = "w";
    user_key = 7 ∷ [];
  };
  domain = processing_time;
  fire_timestamp = pos 5;
  hold_timestamp = pos 5;
}

abbrev late : TimerEntry
late = record early { key = record (early.key) { user_key = 8 ∷ [] }; fire_timestamp = pos 9 }

early-IsStorable : IsStorable early.key
unfolding as_bytes
early-IsStorable = part _ _ (omega arith) (
    part _ _ (omega arith)
      (part _ _ (omega arith) (part _ _ (omega arith) (part _ _ (omega arith) none_left))))

abbrev start : TimerService log.Kv
start = record { store = []; notified = 0; origin_epoch_millis = pos 0; manual_now = unset }

late-IsStorable : IsStorable late.key
unfolding as_bytes
late-IsStorable = part _ _ (omega arith) (
    part _ _ (omega arith)
      (part _ _ (omega arith) (part _ _ (omega arith) (part _ _ (omega arith) none_left))))

start-HoldsTable : HoldsTable plain log start (λ _. none)
unfolding flare_db.Timers.Tests.Log.read timers
start-HoldsTable = record {
  stored = λ key value h. absurd (none≢some none value refl h);
  same = λ j fj. refl;
}

abbrev settings : List Op
settings = set_timer late ∷ set_timer early ∷ []

settings-AllOpsStorable : AllOpsStorable settings
settings-AllOpsStorable =
    one (set_timer late) _ late-IsStorable (one (set_timer early) _ early-IsStorable nothing)

abbrev both : TimerService log.Kv
unfolding storage_key
both = record start {
  store = (storage_key early.key, some early) ∷ (storage_key late.key, some late) ∷ [];
  notified = 2;
}

both-run : run plain log start settings ≡ done both
unfolding run flare_db.Timers.Service.set flare_db.Timers.Store.upsert both
    flare_db.Timers.Tests.Log.push
both-run = refl

both-IsStored : IsStored plain log both.store
both-IsStored =
    (run_refines plain log settings start both (λ _. none) settings-AllOpsStorable start-HoldsTable
      both-run).stored

storage_key→eq_example : early.key ≡ record (late.key) { user_key = 7 ∷ [] }
storage_key→eq_example =
    storage_key→eq early.key (record (late.key) { user_key = 7 ∷ [] }) early-IsStorable
      early-IsStorable refl

abbrev taken : TimerService log.Kv
unfolding storage_key
taken = record both { store = (storage_key early.key, none) ∷ both.store }

take_early : take_due_processing_time plain log both (pos 7) ≡ done (early ∷ [], taken)
unfolding take_due_processing_time flare_db.Timers.Store.entries flare_db.Timers.Tests.Log.live both
    flare_db.Base.Members.filter flare_db.Timers.Kv.bytes_eq as_bytes flare_db.Timers.Store.apply
    flare_db.Timers.Tests.Log.push
take_early = refl

calls-AllOpsStorable : AllOpsStorable (set_timer late ∷ set_timer early ∷ take_due (pos 7) ∷ [])
calls-AllOpsStorable =
    one _ _ late-IsStorable (one _ _ early-IsStorable (one (take_due (pos 7)) _ tt nothing))

run_refines_example :
    HoldsTable plain log taken
      (replay (set_timer late ∷ set_timer early ∷ take_due (pos 7) ∷ []) (λ _. none))
unfolding run flare_db.Timers.Service.set flare_db.Timers.Store.upsert take_due_processing_time
    flare_db.Timers.Store.entries flare_db.Timers.Tests.Log.live flare_db.Timers.Tests.Log.push
    flare_db.Base.Members.filter flare_db.Timers.Kv.bytes_eq storage_key as_bytes
    flare_db.Timers.Store.apply
run_refines_example =
    run_refines plain log (set_timer late ∷ set_timer early ∷ take_due (pos 7) ∷ []) start taken
      (λ _. none) calls-AllOpsStorable start-HoldsTable refl

abbrev cells : List (Bytes × TimerEntry)
unfolding storage_key
cells = (storage_key early.key, early) ∷ (storage_key late.key, late) ∷ []

due_processing_time_exact_example :
    (due : List TimerEntry) × (due_processing_time plain log both (pos 9) ≡ done due)
    × IsAscending due
    × ((e : TimerEntry) → IsIn e due ↔ (IsHeld plain log both.store e × (is_due (pos 9) e ≡ true)))
unfolding cells flare_db.Timers.Tests.Log.live flare_db.Base.Members.filter
    flare_db.Timers.Kv.bytes_eq as_bytes
due_processing_time_exact_example =
    due_processing_time_exact plain log both (pos 9) cells both-IsStored refl

next_wait-IsRight_example : IsRight plain log both.store (now both 3) (next_wait plain log both 3)
unfolding cells flare_db.Timers.Tests.Log.live flare_db.Base.Members.filter
    flare_db.Timers.Kv.bytes_eq as_bytes
next_wait-IsRight_example = next_wait-IsRight plain log both 3 cells both-IsStored refl

-- The sleep until the earlier timer.
next_wait_early : next_wait plain log both 3 ≡ sleep 2
unfolding next_wait flare_db.Timers.Store.entries flare_db.Timers.Tests.Log.live both
    flare_db.Base.Members.filter flare_db.Timers.Kv.bytes_eq as_bytes flare_db.Base.eqb_ℤ
    flare_db.Base.◌+ℤ◌ flare_db.Base.min_ℤ
next_wait_early = refl

take_once_example : let due : List TimerEntry = [] in due ≡ []
unfolding due_processing_time flare_db.Timers.Store.entries flare_db.Timers.Tests.Log.live taken
    flare_db.Base.Members.filter flare_db.Timers.Kv.bytes_eq as_bytes
take_once_example =
    take_once plain log both taken (pos 7) (pos 6) (early ∷ []) [] both-IsStored take_early
      (omega arith) refl
