-- ===== src/Trigger/Tests.antt =====
-- Concrete runs of the triggers of flaredb/src/engine/trigger.rs.
use flare_db.Base.{
  ◌≡◌, refl, pos, Bool, true, false, not, ◌&&◌, Option, some, List, [], ◌∷◌, leb, negsuc, ◌+ℤ◌,
  arith,
}
use flare_db.Trigger.Syntax.{
  Trigger, element_count, after_processing_time, after_watermark, after_each, repeat, absent,
  present, nil, cons, TriggerProto, p_element_count, p_after_end_of_window, p_present, from_proto,
  p_after_processing_time, delay, total_delay_millis,
}
use flare_db.Trigger.Syntax.Parsed.{IsReady, IsSummable, exact_delay, from_proto-IsReady}
use flare_db.Trigger.Runner.{
  TriggerContext, node, leaf, fork, fresh, element, fire, TriggerRunner, new, runner_should_fire,
  on_element, on_fire, is_finished, Event, arrival, firing, handle, run,
}
use flare_db.Trigger.Runner.Shape.{Fits}
use flare_db.Trigger.Runner.Shape.Runs.{run-IsTotal}
use flare_db.Trigger.Runner.Latch.{
  arrivals, has_fired, first_arrival, has_elapsed, element_count-ready, after_processing_time-ready,
}
use flare_db.Trigger.Runner.OnTime.{has_fired_on_time, after_watermark-on_time, repeat-on_fire}
use flare_db.Trigger.Runner.Finished.{finished-IsSilent}

abbrev early_context : TriggerContext
early_context = record { end_of_window = false; expired = false; processing_time = pos 50 }

abbrev end_context : TriggerContext
end_context = record { end_of_window = true; expired = false; processing_time = pos 90 }

abbrev three_events : List Event
three_events = arrival (pos 10) ∷ arrival (pos 20) ∷ firing early_context ∷ []

abbrev proto : TriggerProto
proto =
    p_after_end_of_window
      (p_present (p_after_processing_time (delay (pos 30) ∷ delay (pos 40) ∷ [])))
      (p_present (p_element_count (pos 0)))

proto-IsSummable : IsSummable proto
unfolding exact_delay
proto-IsSummable = ground arith

from_proto-IsReady_example : IsReady (from_proto proto)
from_proto-IsReady_example = from_proto-IsReady proto proto-IsSummable

-- Two delays of 2 ^ 63 - 1 sum to -2, and a trigger with such a delay fires at once.
overflow_test :
    total_delay_millis
      (delay (pos 9_223_372_036_854_775_807) ∷ delay (pos 9_223_372_036_854_775_807) ∷ [])
    ≡ negsuc 1
unfolding total_delay_millis flare_db.Base.I64.wrapping_add flare_db.Base.max_ℤ
overflow_test = refl

abbrev speculative : Trigger
speculative = after_watermark (present (element_count 2)) absent

abbrev delayed : Trigger
delayed = after_watermark (present (repeat (after_processing_time (pos 30)))) absent

run-IsTotal_example :
    (r : TriggerRunner) × (run (new delayed) three_events ≡ some r)
    × Fits r.trigger r.state
    × ((b : Bool) × (runner_should_fire r end_context ≡ some b))
run-IsTotal_example =
    run-IsTotal delayed three_events end_context (omega arith, tt)
      (omega arith, (omega arith, (tt, tt)))

abbrev speculated : TriggerRunner
speculated = record {
  trigger = speculative;
  state = node false 0 Option.none 0 false (
      fork (node true 2 Option.none 0 false leaf)
        (fork (node false 0 Option.none 0 false leaf) leaf));
}

run-speculated : run (new speculative) three_events ≡ some speculated
unfolding new run handle on_element on_fire element fire fresh
run-speculated = refl

on_time_unused : has_fired_on_time three_events ≡ false
unfolding has_fired_on_time
on_time_unused = refl

after_watermark-on_time_example : runner_should_fire speculated end_context ≡ some true
after_watermark-on_time_example =
    after_watermark-on_time (present (element_count 2)) absent three_events speculated end_context
      run-speculated on_time_unused refl

-- Two elements have arrived.
abbrev counted : TriggerRunner
counted = record { trigger = element_count 2; state = node true 2 Option.none 0 false leaf }

run-counted : run (new (element_count 2)) three_events ≡ some counted
unfolding new run handle on_element on_fire element fire fresh
run-counted = refl

element_count-ready_example :
    runner_should_fire counted end_context
    ≡ some (leb 2 (arrivals three_events) && not (has_fired three_events))
element_count-ready_example = element_count-ready 2 three_events counted end_context run-counted

abbrev two_arrivals : List Event
two_arrivals = arrival (pos 10) ∷ arrival (pos 20) ∷ []

abbrev waited : TriggerRunner
waited = record {
  trigger = after_processing_time (pos 30);
  state = node false 0 (some (pos 10)) 0 false leaf;
}

run-waited : run (new (after_processing_time (pos 30))) two_arrivals ≡ some waited
unfolding new run handle on_element on_fire element fire fresh
run-waited = refl

after_processing_time-ready_example :
    runner_should_fire waited end_context
    ≡ some
        (has_elapsed (first_arrival two_arrivals) (pos 30) (pos 90) && not (has_fired two_arrivals))
unfolding ◌+ℤ◌ first_arrival
after_processing_time-ready_example =
    after_processing_time-ready (pos 30) two_arrivals waited end_context (omega arith)
      (omega arith, omega arith) run-waited

abbrev repeated : TriggerRunner
repeated = record {
  trigger = repeat (element_count 2);
  state = node false 0 Option.none 0 false (fork (node false 1 Option.none 0 false leaf) leaf);
}

run-repeated : run (new (repeat (element_count 2))) (arrival (pos 10) ∷ []) ≡ some repeated
unfolding new run handle on_element on_fire element fire fresh
run-repeated = refl

repeated_fire : on_fire repeated early_context ≡ some (new (repeat (element_count 2)))
unfolding new on_fire fire fresh
repeated_fire = refl

repeat-on_fire_example : new (repeat (element_count 2)) ≡ new (repeat (element_count 2))
repeat-on_fire_example =
    repeat-on_fire (element_count 2) (arrival (pos 10) ∷ []) repeated
      (new (repeat (element_count 2))) early_context run-repeated repeated_fire

abbrev once : Trigger
once = after_each (cons (element_count 1) nil)

abbrev spent : TriggerRunner
spent = record {
  trigger = once;
  state = node false 0 Option.none 1 true (fork (node true 1 Option.none 0 false leaf) leaf);
}

abbrev spent_more : TriggerRunner
spent_more = record {
  trigger = once;
  state = node false 0 Option.none 1 true (fork (node true 2 Option.none 0 false leaf) leaf);
}

run-spent : run (new once) (arrival (pos 10) ∷ firing early_context ∷ []) ≡ some spent
unfolding new run handle on_element on_fire element fire fresh
run-spent = refl

spent_finished : is_finished spent ≡ true
unfolding is_finished
spent_finished = refl

spent_on : run spent (arrival (pos 20) ∷ []) ≡ some spent_more
unfolding run handle on_element element
spent_on = refl

finished-IsSilent_example : runner_should_fire spent_more end_context ≡ some false
finished-IsSilent_example =
    finished-IsSilent once (arrival (pos 10) ∷ firing early_context ∷ []) (arrival (pos 20) ∷ [])
      spent spent_more end_context run-spent spent_finished spent_on
