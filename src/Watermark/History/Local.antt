-- ===== src/Watermark/History/Local.antt =====
-- What every call on flaredb/src/engine/watermark.rs keeps of a single stage: the bundles in flight
-- do not pass their ceiling, and the two maps of holds are well formed.
use flare_db.Base.{
  ◌≤◌, ◌≡◌, refl, sym, subst, inl, inr, Bool, true, false, Bool-cases, Option, none, some,
  Option-cases, List, [], ◌∷◌, some_eq, same_value, none≢some, arith,
}
use flare_db.Base.Text.{str_eq}
use flare_db.Base.Dict.{get, modify, modify_all, get-modify, get-modify_all}
use flare_db.Watermark.State.{
  Timestamp, StageId, PCollectionId, Holds, StageState, WatermarkManager, hold_all, hold_add,
  is_empty,
}
use flare_db.Watermark.HoldMap.{IsHoldMap, hold_add-IsHoldMap, hold_release-IsHoldMap}
use flare_db.Watermark.Manager.{hold_at, unhold_at}
use flare_db.Watermark.Bundles.{started, start_refusal, wake_main, wake_side, finish_one}
use flare_db.Watermark.Bundles.Start.{started-CanStart}
use flare_db.Watermark.Bundles.Loops.{At}
use flare_db.Watermark.Refresh.{refresh, release_empty}
use flare_db.Watermark.Refresh.Monotone.{refresh-Extends, IsLater}
use mathlib.Core.Option

pub record IsConsistent (s : StageState) : Type 0 where
  pub capacity : s.in_flight ≤ s.max_in_flight
  pub timer_holds : IsHoldMap s.watermark_holds
  pub deferred_holds : IsHoldMap s.residual_holds

-- Every stage of the manager is consistent.
abbrev pub IsAllConsistent : WatermarkManager → Type 0
IsAllConsistent m = (id : StageId) → At IsConsistent id m

hold_all-IsHoldMap : (ts : List Timestamp) (m : Holds) → IsHoldMap m → IsHoldMap (hold_all ts m)
unfolding hold_all
hold_all-IsHoldMap [] m h = h
hold_all-IsHoldMap (t ∷ ts) m h = hold_all-IsHoldMap ts (hold_add t m) (hold_add-IsHoldMap t m h)

pub hold_at-IsConsistent :
    (t : Timestamp) (s : StageState) → IsConsistent s → IsConsistent (hold_at t s)
hold_at-IsConsistent t s v = record {
  capacity = v.capacity;
  timer_holds = hold_add-IsHoldMap t s.watermark_holds v.timer_holds;
  deferred_holds = v.deferred_holds;
}

pub unhold_at-IsConsistent :
    (t : Timestamp) (s : StageState) → IsConsistent s → IsConsistent (unhold_at t s)
unhold_at-IsConsistent t s v = record {
  capacity = v.capacity;
  timer_holds = hold_release-IsHoldMap t s.watermark_holds v.timer_holds;
  deferred_holds = v.deferred_holds;
}

pub set_timers-IsConsistent :
    (ts : List Timestamp) (s : StageState)
    → IsConsistent s
    → IsConsistent (record s { watermark_holds = hold_all ts [] })
set_timers-IsConsistent ts s v = record {
  capacity = v.capacity;
  timer_holds = hold_all-IsHoldMap ts [] tt;
  deferred_holds = v.deferred_holds;
}

pub set_residuals-IsConsistent :
    (ts : List Timestamp) (s : StageState)
    → IsConsistent s
    → IsConsistent (record s { residual_holds = hold_all ts [] })
set_residuals-IsConsistent ts s v = record {
  capacity = v.capacity;
  timer_holds = v.timer_holds;
  deferred_holds = hold_all-IsHoldMap ts [] tt;
}

pub started-IsConsistent :
    (id : StageId) (s : StageState)
    → start_refusal id s ≡ none
    → IsConsistent s
    → IsConsistent (started s)
unfolding started
started-IsConsistent id s h v = record {
  capacity = omega (arith, (started-CanStart id s h).has_room);
  timer_holds = v.timer_holds;
  deferred_holds = v.deferred_holds;
}

pub finish_one-IsConsistent : (s : StageState) → IsConsistent s → IsConsistent (finish_one s)
finish_one-IsConsistent s v = record {
  capacity = omega (arith, v.capacity);
  timer_holds = v.timer_holds;
  deferred_holds = v.deferred_holds;
}

pub wake_main-IsConsistent :
    (pc : PCollectionId) (empty : Bool) (min : Option Timestamp) (s : StageState)
    → IsConsistent s
    → IsConsistent (wake_main pc empty min s)
unfolding wake_main
wake_main-IsConsistent pc empty min s v = record {
  capacity = v.capacity;
  timer_holds = v.timer_holds;
  deferred_holds = v.deferred_holds;
}

pub wake_side-IsConsistent :
    (pc : PCollectionId) (empty : Bool) (s : StageState)
    → IsConsistent s
    → IsConsistent (wake_side pc empty s)
unfolding wake_side
wake_side-IsConsistent pc true s v = record {
  capacity = v.capacity;
  timer_holds = v.timer_holds;
  deferred_holds = v.deferred_holds;
}
wake_side-IsConsistent pc false s v = record {
  capacity = v.capacity;
  timer_holds = v.timer_holds;
  deferred_holds = v.deferred_holds;
}

pub release_empty-IsConsistent : (s : StageState) → IsConsistent s → IsConsistent (release_empty s)
unfolding release_empty
release_empty-IsConsistent s v = elim (Bool-cases (is_empty s.pending_empty)) [
  | inl e ↦ rw (e, release_empty) v
  | inr e ↦
      rw (e, release_empty)
        (record {
          capacity = v.capacity;
          timer_holds = v.timer_holds;
          deferred_holds = v.deferred_holds;
        })
]

-- One stage changed, by a change that may use which stage it is.
pub modify-IsAllConsistent :
    (id : StageId) (f : StageState → StageState) (m : WatermarkManager)
    → ((s : StageState) → get id m.stage_map ≡ some s → IsConsistent s → IsConsistent (f s))
    → IsAllConsistent m
    → IsAllConsistent (record m { stage_map = modify id f m.stage_map })
modify-IsAllConsistent id f m keep all j t h = elim (Bool-cases (str_eq id j)) [
  | inl e ↦ changed (get id m.stage_map) refl (rw (get-modify id j f m.stage_map, e) at h)
  | inr e ↦ all j t (rw (get-modify id j f m.stage_map, e) at h)
]
  where
    changed :
        (o : Option StageState) → get id m.stage_map ≡ o → Option.map f o ≡ some t → IsConsistent t
    changed none e k = absurd (cc)
    changed (some s) e k = subst IsConsistent (some_eq (f s) t k) (keep s e (all id s e))

pub modify_all-IsAllConsistent :
    (f : StageId → StageState → StageState) (m : WatermarkManager)
    → ((id : StageId) (s : StageState) → IsConsistent s → IsConsistent (f id s))
    → IsAllConsistent m
    → IsAllConsistent (record m { stage_map = modify_all f m.stage_map })
modify_all-IsAllConsistent f m keep all j t h =
    changed (get j m.stage_map) refl (rw (get-modify_all j f m.stage_map) at h)
  where
    changed :
        (o : Option StageState)
        → get j m.stage_map ≡ o
        → Option.map (f j) o ≡ some t
        → IsConsistent t
    changed none e k = absurd (cc)
    changed (some s) e k = subst IsConsistent (some_eq (f j s) t k) (keep j s (all j s e))

later-IsConsistent : (s t : StageState) → IsLater s t → IsConsistent s → IsConsistent t
later-IsConsistent s t l v = subst IsConsistent (sym l.same) (record {
  capacity = v.capacity;
  timer_holds = v.timer_holds;
  deferred_holds = v.deferred_holds;
})

pub refresh-IsAllConsistent :
    (m : WatermarkManager) → IsAllConsistent m → IsAllConsistent (refresh m).0
refresh-IsAllConsistent m all id t h = elim (Option-cases (get id m.stage_map)) [
  | inl e ↦ absurd (none≢some _ t ((refresh-Extends m).missing id e) h)
  | inr (s, e) ↦
      let (u, g, later) = (refresh-Extends m).stages id s e in
      subst IsConsistent (same_value _ u t g h) (later-IsConsistent s u later (all id s e))
]
