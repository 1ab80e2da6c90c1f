-- ===== src/Trigger/Syntax.antt =====
-- The triggers of flaredb/src/engine/trigger.rs and how they are parsed from their protos.
pub mod Parsed
use flare_db.Base.{
  ℕ, ℤ, pos, negsuc, Bool, true, false, Option, none, some, List, [], ◌∷◌, if◌then◌else◌, leb,
  ltb_ℤ, max_ℤ,
}
use flare_db.Base.I64.{wrapping_add}
use flare_db.Watermark.Manager.{saturating_add}

-- `Option<Box<Trigger>>` and `Vec<Trigger>` are types of the block.
mutual
  pub data Trigger : Type 0 where
    default never always : Trigger
    element_count : ℕ → Trigger
    after_processing_time : ℤ → Trigger
    after_synchronized_processing_time : Trigger
    after_watermark : MaybeTrigger → MaybeTrigger → Trigger
    after_all after_any after_each : Triggers → Trigger
    repeat : Trigger → Trigger
    or_finally : Trigger → Trigger → Trigger

  pub data MaybeTrigger : Type 0 where
    absent : MaybeTrigger
    present : Trigger → MaybeTrigger

  pub data Triggers : Type 0 where
    nil : Triggers
    cons : Trigger → Triggers → Triggers

-- The `oneof` of a timestamp transform: a delay, an alignment, or nothing.
pub data TimestampTransform : Type 0 where
  delay : ℤ → TimestampTransform
  other : TimestampTransform

-- The proto of a trigger. `unset` is a missing message or a message with no case set.
mutual
  pub data TriggerProto : Type 0 where
    unset p_default p_never p_always : TriggerProto
    p_element_count : ℤ → TriggerProto
    p_after_processing_time : List TimestampTransform → TriggerProto
    p_after_synchronized_processing_time : TriggerProto
    p_after_end_of_window : MaybeProto → MaybeProto → TriggerProto
    p_after_all p_after_any p_after_each : Protos → TriggerProto
    p_repeat : TriggerProto → TriggerProto
    p_or_finally : TriggerProto → TriggerProto → TriggerProto

  pub data MaybeProto : Type 0 where
    p_absent : MaybeProto
    p_present : TriggerProto → MaybeProto

  pub data Protos : Type 0 where
    p_nil : Protos
    p_cons : TriggerProto → Protos → Protos

-- `total_delay_millis`: the sum of the delays, each at least 0, as an i64 that wraps.
unfoldable pub total_delay_from : ℤ → List TimestampTransform → ℤ
total_delay_from total [] = total
total_delay_from total (delay d ∷ ts) = total_delay_from (wrapping_add total (max_ℤ d (pos 0))) ts
total_delay_from total (other ∷ ts) = total_delay_from total ts

unfoldable pub total_delay_millis : List TimestampTransform → ℤ
unfolding total_delay_from
total_delay_millis ts = total_delay_from (pos 0) ts

-- `element_count.max(1) as u64`
unfoldable pub count_of : ℤ → ℕ
count_of (pos n) = if leb n 1 then 1 else n
count_of (negsuc n) = 1

unfoldable mutual
  unfolding total_delay_millis count_of

  pub from_proto : TriggerProto → Trigger
  from_proto unset = default
  from_proto p_default = default
  from_proto p_never = never
  from_proto p_always = always
  from_proto (p_element_count n) = element_count (count_of n)
  from_proto (p_after_processing_time ts) = after_processing_time (total_delay_millis ts)
  from_proto p_after_synchronized_processing_time = after_synchronized_processing_time
  from_proto (p_after_end_of_window early late) =
      after_watermark (from_maybe early) (from_maybe late)
  from_proto (p_after_all ts) = after_all (parse_all ts)
  from_proto (p_after_any ts) = after_any (parse_all ts)
  from_proto (p_after_each ts) = after_each (parse_all ts)
  from_proto (p_repeat t) = repeat (from_proto t)
  from_proto (p_or_finally main finally) = or_finally (from_proto main) (from_proto finally)

  pub from_maybe : MaybeProto → MaybeTrigger
  from_maybe p_absent = absent
  from_maybe (p_present t) = present (from_proto t)

  pub parse_all : Protos → Triggers
  parse_all p_nil = nil
  parse_all (p_cons t ts) = cons (from_proto t) (parse_all ts)

pub data AccumulationMode : Type 0 where
  discarding accumulating retracting : AccumulationMode

pub data OutputTime : Type 0 where
  end_of_window latest_in_pane earliest_in_pane : OutputTime

-- The proto's accumulation mode; a number that is no mode is `unknown_mode`.
pub data AccumulationProto : Type 0 where
  unspecified_mode discarding_mode accumulating_mode retracting_mode unknown_mode :
      AccumulationProto

unfoldable pub accumulation_from_proto : AccumulationProto → AccumulationMode
accumulation_from_proto accumulating_mode = accumulating
accumulation_from_proto retracting_mode = accumulating
accumulation_from_proto _ = discarding

-- The proto's output time; a number that is none is `unknown_time`.
pub data OutputTimeProto : Type 0 where
  unspecified_time end_of_window_time latest_time earliest_time unknown_time : OutputTimeProto

unfoldable pub output_time_from_proto : OutputTimeProto → OutputTime
output_time_from_proto latest_time = latest_in_pane
output_time_from_proto earliest_time = earliest_in_pane
output_time_from_proto _ = end_of_window

pub record WindowingStrategy : Type 0 where
  pub trigger_proto : TriggerProto
  pub accumulation_proto : AccumulationProto
  pub output_time_proto : OutputTimeProto
  pub lateness : ℤ

pub record TriggerSpec : Type 0 where
  pub trigger : Trigger
  pub accumulation : AccumulationMode
  pub output_time : OutputTime
  pub allowed_lateness : ℤ

unfoldable pub from_windowing_strategy : Option WindowingStrategy → TriggerSpec
unfolding from_proto accumulation_from_proto output_time_from_proto
from_windowing_strategy none = record {
  trigger = default;
  accumulation = discarding;
  output_time = end_of_window;
  allowed_lateness = pos 0;
}
from_windowing_strategy (some s) = record {
  trigger = from_proto s.trigger_proto;
  accumulation = accumulation_from_proto s.accumulation_proto;
  output_time = output_time_from_proto s.output_time_proto;
  allowed_lateness = s.lateness;
}

unfoldable pub earliest_completion : TriggerSpec → ℤ → ℤ
unfolding saturating_add
earliest_completion spec window_end_millis = saturating_add window_end_millis spec.allowed_lateness
