-- ===== src/Trigger/Runner/Moderate.antt =====
-- Times and delays of flaredb/src/engine/trigger.rs whose sums do not overflow.
use flare_db.Base.{◌<◌, ℤ, pos, negsuc, ◌+ℤ◌, Option, none, some, arith}
use flare_db.Trigger.Syntax.{
  Trigger, MaybeTrigger, Triggers, after_processing_time, after_watermark, after_all, after_any,
  after_each, repeat, or_finally, absent, present, nil, cons,
}
use flare_db.Trigger.Runner.Latch.{IsAddable}
use flare_db.Trigger.Runner.{arrived}

-- Within 2 ^ 62 of 0, so that the sum of two is an i64.
abbrev pub IsModerate : ℤ → Type 0
IsModerate (pos n) = n < 4_611_686_018_427_387_904
IsModerate (negsuc n) = n < 4_611_686_018_427_387_904

abbrev pub IsModerateTime : Option ℤ → Type 0
IsModerateTime none = Unit {0}
IsModerateTime (some t) = IsModerate t

-- Every delay in the tree is moderate.
abbrev mutual
  pub IsModerateTrigger : Trigger → Type 0
  IsModerateTrigger (after_processing_time d) = IsModerate d
  IsModerateTrigger (after_watermark early late) = IsModerateMaybe early × IsModerateMaybe late
  IsModerateTrigger (after_all ts) = IsModerateAll ts
  IsModerateTrigger (after_any ts) = IsModerateAll ts
  IsModerateTrigger (after_each ts) = IsModerateAll ts
  IsModerateTrigger (repeat t) = IsModerateTrigger t
  IsModerateTrigger (or_finally main finally) = IsModerateTrigger main × IsModerateTrigger finally
  IsModerateTrigger _ = Unit {0}

  pub IsModerateMaybe : MaybeTrigger → Type 0
  IsModerateMaybe absent = Unit {0}
  IsModerateMaybe (present t) = IsModerateTrigger t

  pub IsModerateAll : Triggers → Type 0
  IsModerateAll nil = Unit {0}
  IsModerateAll (cons t ts) = IsModerateTrigger t × IsModerateAll ts

IsModerate-IsAddable : (t d : ℤ) → IsModerate t → IsModerate d → IsAddable (some t) d
unfolding ◌+ℤ◌
IsModerate-IsAddable (pos m) (pos n) h k = ground arith
IsModerate-IsAddable (pos m) (negsuc n) h k = ground arith
IsModerate-IsAddable (negsuc m) (pos n) h k = ground arith
IsModerate-IsAddable (negsuc m) (negsuc n) h k = ground arith

pub moderate_sum : (a : Option ℤ) (d : ℤ) → IsModerateTime a → IsModerate d → IsAddable a d
moderate_sum none d h k = tt
moderate_sum (some t) d h k = IsModerate-IsAddable t d h k

pub arrived-IsModerateTime :
    (a : Option ℤ) (now : ℤ) → IsModerate now → IsModerateTime a → IsModerateTime (arrived a now)
arrived-IsModerateTime none now h k = h
arrived-IsModerateTime (some t) now h k = k
