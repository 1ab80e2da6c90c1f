-- ===== src/Trigger/Runner/Shape.antt =====
-- The state of a trigger mirrors its tree and its times are moderate, so in
-- flaredb/src/engine/trigger.rs no index is out of range and no sum of a time and a delay overflows.
pub mod Ready
pub mod Element
pub mod Fire
pub mod Runs
use flare_db.Base.{
  ℕ, zero, suc, ◌+◌, ◌<◌, ◌≡◌, refl, ℤ, pos, negsuc, ◌+ℤ◌, Bool, true, false, not, ◌&&◌, Option,
  none, some, List, [], ◌∷◌, leb, arith, if◌then◌else◌, Bool-cases, Option-cases,
}
use flare_db.Trigger.Syntax.{
  Trigger, MaybeTrigger, Triggers, default, never, always, element_count, after_processing_time,
  after_synchronized_processing_time, after_watermark, after_all, after_any, after_each, repeat,
  or_finally, absent, present, nil, cons,
}
use flare_db.Trigger.Runner.Latch.{IsAddable}
use flare_db.Trigger.Runner.Moderate.{
  IsModerate, IsModerateTime, IsModerateTrigger, IsModerateMaybe, IsModerateAll,
}
use flare_db.Trigger.Runner.{
  TriggerContext, NodeState, NodeStates, node, leaf, fork, ◌>>=◌, with_children, fresh, fresh_maybe,
  fresh_all, child, set_child, arrived, element, element_at, element_zip, or_else, and_then,
  should_fire, should_fire_at, all_fire, any_fires, nth_fires, count_triggers, set_finished_or,
  fire, fire_at, reset_at, fire_zip, fire_nth, TriggerRunner, new, on_element, runner_should_fire,
  on_fire, Event, arrival, firing, handle, run,
}

-- The children of a node are the states of the subtriggers, in order, and an AfterProcessingTime node
-- has a first arrival and a delay whose sum is an i64, because both are moderate.
mutual
  pub data Fits : Trigger → NodeState → Type 0 where
    default_fits : {s : NodeState} → Fits default s
    never_fits : {s : NodeState} → Fits never s
    always_fits : {s : NodeState} → Fits always s
    count_fits : {n : ℕ} {s : NodeState} → Fits (element_count n) s
    time_fits :
        {n : ℤ} {f : Bool} {c : ℕ} {a : Option ℤ} {i : ℕ} {d : Bool} {cs : NodeStates}
        → IsModerate n
        → IsModerateTime a
        → IsAddable a n
        → Fits (after_processing_time n) (node f c a i d cs)
    synchronized_fits : {s : NodeState} → Fits after_synchronized_processing_time s
    watermark_fits :
        {early late : MaybeTrigger} {f : Bool} {c : ℕ} {a : Option ℤ} {i : ℕ} {d : Bool}
        {cs : NodeStates}
        → FitsTwo early late cs
        → Fits (after_watermark early late) (node f c a i d cs)
    all_fits :
        {ts : Triggers} {f : Bool} {c : ℕ} {a : Option ℤ} {i : ℕ} {d : Bool} {cs : NodeStates}
        → FitsAll ts cs
        → Fits (after_all ts) (node f c a i d cs)
    any_fits :
        {ts : Triggers} {f : Bool} {c : ℕ} {a : Option ℤ} {i : ℕ} {d : Bool} {cs : NodeStates}
        → FitsAll ts cs
        → Fits (after_any ts) (node f c a i d cs)
    each_fits :
        {ts : Triggers} {f : Bool} {c : ℕ} {a : Option ℤ} {i : ℕ} {d : Bool} {cs : NodeStates}
        → FitsAll ts cs
        → Fits (after_each ts) (node f c a i d cs)
    repeat_fits :
        {t : Trigger} {s : NodeState} {f : Bool} {c : ℕ} {a : Option ℤ} {i : ℕ} {d : Bool}
        → Fits t s
        → Fits (repeat t) (node f c a i d (fork s leaf))
    or_finally_fits :
        {main finally : Trigger} {s u : NodeState} {f : Bool} {c : ℕ} {a : Option ℤ} {i : ℕ}
        {d : Bool}
        → Fits main s
        → Fits finally u
        → Fits (or_finally main finally) (node f c a i d (fork s (fork u leaf)))

  pub data FitsMaybe : MaybeTrigger → NodeState → Type 0 where
    absent_fits : {s : NodeState} → FitsMaybe absent s
    present_fits : {t : Trigger} {s : NodeState} → Fits t s → FitsMaybe (present t) s

  pub data FitsTwo : MaybeTrigger → MaybeTrigger → NodeStates → Type 0 where
    two_fit :
        {early late : MaybeTrigger} {s u : NodeState}
        → FitsMaybe early s
        → FitsMaybe late u
        → FitsTwo early late (fork s (fork u leaf))

  pub data FitsAll : Triggers → NodeStates → Type 0 where
    nil_fits : FitsAll nil leaf
    cons_fits :
        {t : Trigger} {s : NodeState} {ts : Triggers} {cs : NodeStates}
        → Fits t s
        → FitsAll ts cs
        → FitsAll (cons t ts) (fork s cs)

-- A result that exists and satisfies a predicate.
abbrev pub Returns : {A : Type 0} → (A → Type 0) → Option A → Type 0
Returns P none = ⊥
Returns P (some a) = P a

mutual
  unfolding fresh

  pub fresh-Fits : (t : Trigger) → IsModerateTrigger t → Fits t (fresh t)
  fresh-Fits default h = default_fits
  fresh-Fits never h = never_fits
  fresh-Fits always h = always_fits
  fresh-Fits (element_count n) h = count_fits
  fresh-Fits (after_processing_time d) h = time_fits h tt tt
  fresh-Fits after_synchronized_processing_time h = synchronized_fits
  fresh-Fits (after_watermark early late) (h, k) =
      watermark_fits (two_fit (fresh_maybe-Fits early h) (fresh_maybe-Fits late k))
  fresh-Fits (after_all ts) h = all_fits (fresh_all-Fits ts h)
  fresh-Fits (after_any ts) h = any_fits (fresh_all-Fits ts h)
  fresh-Fits (after_each ts) h = each_fits (fresh_all-Fits ts h)
  fresh-Fits (repeat t) h = repeat_fits (fresh-Fits t h)
  fresh-Fits (or_finally main finally) (h, k) =
      or_finally_fits (fresh-Fits main h) (fresh-Fits finally k)

  fresh_maybe-Fits : (t : MaybeTrigger) → IsModerateMaybe t → FitsMaybe t (fresh_maybe t)
  fresh_maybe-Fits absent h = absent_fits
  fresh_maybe-Fits (present t) h = present_fits (fresh-Fits t h)

  fresh_all-Fits : (ts : Triggers) → IsModerateAll ts → FitsAll ts (fresh_all ts)
  fresh_all-Fits nil h = nil_fits
  fresh_all-Fits (cons t ts) (h, k) = cons_fits (fresh-Fits t h) (fresh_all-Fits ts k)

-- The delays of a trigger that a state fits are moderate.
mutual
  pub Fits-IsModerate : (t : Trigger) (s : NodeState) → Fits t s → IsModerateTrigger t
  Fits-IsModerate _ s default_fits = tt
  Fits-IsModerate _ s never_fits = tt
  Fits-IsModerate _ s always_fits = tt
  Fits-IsModerate _ s count_fits = tt
  Fits-IsModerate _ _ (time_fits h k l) = h
  Fits-IsModerate _ s synchronized_fits = tt
  Fits-IsModerate (after_watermark early late) (node f c a i d cs) (watermark_fits h) =
      FitsTwo-IsModerate early late cs h
  Fits-IsModerate (after_all ts) (node f c a i d cs) (all_fits h) = FitsAll-IsModerate ts cs h
  Fits-IsModerate (after_any ts) (node f c a i d cs) (any_fits h) = FitsAll-IsModerate ts cs h
  Fits-IsModerate (after_each ts) (node f c a i d cs) (each_fits h) = FitsAll-IsModerate ts cs h
  Fits-IsModerate (repeat t) (node f c a i d (fork s leaf)) (repeat_fits h) = Fits-IsModerate t s h
  Fits-IsModerate (or_finally main finally) (node f c a i d (fork s (fork u leaf)))
        (or_finally_fits h k) =
      (Fits-IsModerate main s h, Fits-IsModerate finally u k)

  FitsMaybe-IsModerate : (t : MaybeTrigger) (s : NodeState) → FitsMaybe t s → IsModerateMaybe t
  FitsMaybe-IsModerate absent s h = tt
  FitsMaybe-IsModerate (present t) s (present_fits h) = Fits-IsModerate t s h

  FitsTwo-IsModerate :
      (early late : MaybeTrigger) (cs : NodeStates)
      → FitsTwo early late cs
      → IsModerateMaybe early × IsModerateMaybe late
  FitsTwo-IsModerate early late _ (two_fit {s = s} {u = u} h k) =
      (FitsMaybe-IsModerate early s h, FitsMaybe-IsModerate late u k)

  FitsAll-IsModerate : (ts : Triggers) (cs : NodeStates) → FitsAll ts cs → IsModerateAll ts
  FitsAll-IsModerate nil cs h = tt
  FitsAll-IsModerate (cons t ts) _ (cons_fits {s = s} {cs = cs} h hs) =
      (Fits-IsModerate t s h, FitsAll-IsModerate ts cs hs)

-- A trigger that a state fits has a new state that fits it.
pub refresh-Fits : (t : Trigger) (s : NodeState) → Fits t s → Fits t (fresh t)
refresh-Fits t s h = fresh-Fits t (Fits-IsModerate t s h)

pub bind-Returns :
    {A B : Type 0} {P : A → Type 0} (Q : B → Type 0) (o : Option A) (f : A → Option B)
    → Returns P o
    → ((a : A) → P a → Returns Q (f a))
    → Returns Q (o >>= f)
bind-Returns Q none f h k = h
bind-Returns Q (some a) f h k = k a h

abbrev pub IsAny : Bool → Type 0
IsAny b = Unit {0}

pub if-Returns :
    {A : Type 0} (P : A → Type 0) (b : Bool) (o p : Option A)
    → Returns P o
    → Returns P p
    → Returns P (if b then o else p)
if-Returns P true o p h k = h
if-Returns P false o p h k = k

pub watermark_bind :
    (early late : MaybeTrigger) (o : Option NodeStates) (f : Bool) (c : ℕ) (a : Option ℤ) (i : ℕ)
    (d : Bool)
    → Returns (FitsTwo early late) o
    → Returns (Fits (after_watermark early late)) (o >>= (λ cs. some (node f c a i d cs)))
watermark_bind early late none f c a i d h = h
watermark_bind early late (some cs) f c a i d h = watermark_fits h
