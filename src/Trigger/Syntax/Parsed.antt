-- ===== src/Trigger/Syntax/Parsed.antt =====
-- What every trigger parsed by flaredb/src/engine/trigger.rs satisfies.
use flare_db.Base.{
  ℕ, ◌+◌, ◌≤◌, ◌<◌, ◌≡◌, ap, ◌∙◌, ℤ, pos, negsuc, ◌≤ℤ◌, ◌+ℤ◌, pos_part, List, [], ◌∷◌, max_ℤ, arith,
}
use flare_db.Base.I64.{IsI64, wrapping_add, wrapping_add-exact}
use flare_db.Trigger.Syntax.{
  Trigger, MaybeTrigger, Triggers, element_count, after_processing_time, after_watermark, after_all,
  after_any, after_each, repeat, or_finally, absent, present, nil, cons, TimestampTransform, delay,
  other, TriggerProto, MaybeProto, Protos, unset, p_default, p_never, p_always, p_element_count,
  p_after_processing_time, p_after_synchronized_processing_time, p_after_end_of_window, p_after_all,
  p_after_any, p_after_each, p_repeat, p_or_finally, p_absent, p_present, p_nil, p_cons,
  total_delay_from, total_delay_millis, count_of, from_proto, from_maybe, parse_all,
}

-- Every element count in the tree is at least 1, and no delay is negative.
abbrev mutual
  pub IsReady : Trigger → Type 0
  IsReady (element_count n) = 1 ≤ n
  IsReady (after_processing_time d) = pos 0 ≤ℤ d
  IsReady (after_watermark early late) = IsReadyMaybe early × IsReadyMaybe late
  IsReady (after_all ts) = IsReadyAll ts
  IsReady (after_any ts) = IsReadyAll ts
  IsReady (after_each ts) = IsReadyAll ts
  IsReady (repeat t) = IsReady t
  IsReady (or_finally main finally) = IsReady main × IsReady finally
  IsReady _ = Unit {0}

  pub IsReadyMaybe : MaybeTrigger → Type 0
  IsReadyMaybe absent = Unit {0}
  IsReadyMaybe (present t) = IsReady t

  pub IsReadyAll : Triggers → Type 0
  IsReadyAll nil = Unit {0}
  IsReadyAll (cons t ts) = IsReady t × IsReadyAll ts

-- The sum of the delays of a chain that are not negative, as a number.
unfoldable pub exact_delay : List TimestampTransform → ℕ
exact_delay [] = 0
exact_delay (delay d ∷ ts) = pos_part d + exact_delay ts
exact_delay (other ∷ ts) = exact_delay ts

-- The sum of the delays of every chain in the proto, at any depth, is an i64.
abbrev mutual
  pub IsSummable : TriggerProto → Type 0
  IsSummable (p_after_processing_time ts) = exact_delay ts < 9_223_372_036_854_775_808
  IsSummable (p_after_end_of_window early late) = IsSummableMaybe early × IsSummableMaybe late
  IsSummable (p_after_all ts) = IsSummableAll ts
  IsSummable (p_after_any ts) = IsSummableAll ts
  IsSummable (p_after_each ts) = IsSummableAll ts
  IsSummable (p_repeat t) = IsSummable t
  IsSummable (p_or_finally main finally) = IsSummable main × IsSummable finally
  IsSummable _ = Unit {0}

  pub IsSummableMaybe : MaybeProto → Type 0
  IsSummableMaybe p_absent = Unit {0}
  IsSummableMaybe (p_present t) = IsSummable t

  pub IsSummableAll : Protos → Type 0
  IsSummableAll p_nil = Unit {0}
  IsSummableAll (p_cons t ts) = IsSummable t × IsSummableAll ts

max_zero : (d : ℤ) → max_ℤ d (pos 0) ≡ pos (pos_part d)
unfolding max_ℤ
max_zero (pos n) = ground arith
max_zero (negsuc n) = ground arith

add_pos : (m n : ℕ) → m + n < 9_223_372_036_854_775_808 → wrapping_add (pos m) (pos n) ≡ pos (m + n)
unfolding ◌+ℤ◌
add_pos m n h =
    let sum : pos m +ℤ pos n ≡ pos (m + n) = ground arith in
    let fits : IsI64 (pos m +ℤ pos n) = ground arith in
    wrapping_add-exact (pos m) (pos n) (omega arith) (omega arith) fits ∙ sum

-- A chain whose delays sum to an i64 is given their sum.
total_delay_from-exact :
    (total : ℕ) (ts : List TimestampTransform)
    → total + exact_delay ts < 9_223_372_036_854_775_808
    → total_delay_from (pos total) ts ≡ pos (total + exact_delay ts)
unfolding total_delay_from exact_delay
total_delay_from-exact total [] h = ap pos (omega arith)
total_delay_from-exact total (delay d ∷ ts) h =
    ap (λ n. total_delay_from n ts)
      (ap (wrapping_add (pos total)) (max_zero d) ∙ add_pos total (pos_part d) (omega arith))
    ∙ total_delay_from-exact (total + pos_part d) ts (omega arith)
    ∙ ap pos (omega arith)
total_delay_from-exact total (other ∷ ts) h = total_delay_from-exact total ts h

one-le-count_of : (n : ℤ) → 1 ≤ count_of n
unfolding count_of
one-le-count_of (pos n) = ground arith
one-le-count_of (negsuc n) = omega arith

total_delay_millis-nonneg :
    (ts : List TimestampTransform)
    → exact_delay ts < 9_223_372_036_854_775_808
    → pos 0 ≤ℤ total_delay_millis ts
unfolding total_delay_millis
total_delay_millis-nonneg ts h = rw (total_delay_from-exact 0 ts (omega arith)) (omega arith)

mutual
  unfolding from_proto

  ready : (p : TriggerProto) → IsSummable p → IsReady (from_proto p)
  ready unset h = tt
  ready p_default h = tt
  ready p_never h = tt
  ready p_always h = tt
  ready (p_element_count n) h = one-le-count_of n
  ready (p_after_processing_time ts) h = total_delay_millis-nonneg ts h
  ready p_after_synchronized_processing_time h = tt
  ready (p_after_end_of_window early late) (h, k) = (ready_maybe early h, ready_maybe late k)
  ready (p_after_all ts) h = ready_all ts h
  ready (p_after_any ts) h = ready_all ts h
  ready (p_after_each ts) h = ready_all ts h
  ready (p_repeat t) h = ready t h
  ready (p_or_finally main finally) (h, k) = (ready main h, ready finally k)

  ready_maybe : (p : MaybeProto) → IsSummableMaybe p → IsReadyMaybe (from_maybe p)
  ready_maybe p_absent h = tt
  ready_maybe (p_present t) h = ready t h

  ready_all : (ps : Protos) → IsSummableAll ps → IsReadyAll (parse_all ps)
  ready_all p_nil h = tt
  ready_all (p_cons t ts) (h, k) = (ready t h, ready_all ts k)

-- If the delays of every chain in the proto sum to an i64, then in the parsed trigger, at any depth,
-- an element count is at least 1 and a delay is not negative.
pub from_proto-IsReady : (p : TriggerProto) → IsSummable p → IsReady (from_proto p)
from_proto-IsReady p h = ready p h
