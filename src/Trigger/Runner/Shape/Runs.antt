-- ===== src/Trigger/Runner/Shape/Runs.antt =====
-- Runs of the `TriggerRunner` of flaredb/src/engine/trigger.rs.
use flare_db.Base.{◌≡◌, refl, Bool, Option, none, some, List, [], ◌∷◌}
use flare_db.Trigger.Syntax.{Trigger}
use flare_db.Trigger.Runner.{
  TriggerContext, NodeState, ◌>>=◌, element, should_fire, fire, TriggerRunner, new, on_element,
  runner_should_fire, on_fire, Event, arrival, firing, handle, run,
}
use flare_db.Trigger.Runner.Shape.{Fits, Returns, IsAny, bind-Returns, fresh-Fits}
use flare_db.Trigger.Runner.Shape.Element.{element-Fits}
use flare_db.Trigger.Runner.Moderate.{IsModerate, IsModerateTrigger}
use flare_db.Trigger.Runner.Shape.Ready.{should_fire-Fits}
use flare_db.Trigger.Runner.Shape.Fire.{fire-Fits}

abbrev FitsRunner : TriggerRunner → Type 0
FitsRunner r = Fits r.trigger r.state

with_state-Fits :
    (t : Trigger) (o : Option NodeState)
    → Returns (Fits t) o
    → Returns FitsRunner (o >>= (λ s. some (record { trigger = t; state = s })))
with_state-Fits t none h = h
with_state-Fits t (some s) h = h

-- The time of an arrival is moderate.
abbrev pub IsModerateEvent : Event → Type 0
IsModerateEvent (arrival now) = IsModerate now
IsModerateEvent (firing ctx) = Unit {0}

abbrev pub AllModerate : List Event → Type 0
AllModerate [] = Unit {0}
AllModerate (e ∷ es) = IsModerateEvent e × AllModerate es

handle-Fits :
    (r : TriggerRunner) (e : Event)
    → IsModerateEvent e
    → FitsRunner r
    → Returns FitsRunner (handle r e)
unfolding handle on_element on_fire
handle-Fits r (arrival now) m h =
    with_state-Fits r.trigger (element r.trigger r.state now)
      (element-Fits r.trigger r.state now m h)
handle-Fits r (firing ctx) m h =
    with_state-Fits r.trigger (fire r.trigger r.state ctx) (fire-Fits r.trigger r.state ctx h)

run-Fits :
    (r : TriggerRunner) (es : List Event)
    → AllModerate es
    → FitsRunner r
    → Returns FitsRunner (run r es)
unfolding run
run-Fits r [] m h = h
run-Fits r (e ∷ es) (m, ms) h =
    bind-Returns FitsRunner (handle r e) (λ r'. run r' es) (handle-Fits r e m h)
      (λ r' h'. run-Fits r' es ms h')

answer : (o : Option Bool) → Returns IsAny o → (b : Bool) × (o ≡ some b)
answer none h = elim h [ ]
answer (some b) h = (b, refl)

reached :
    (o : Option TriggerRunner) (ctx : TriggerContext)
    → Returns FitsRunner o
    → (r : TriggerRunner) × (o ≡ some r)
      × Fits r.trigger r.state
      × ((b : Bool) × (runner_should_fire r ctx ≡ some b))
unfolding runner_should_fire
reached none ctx h = elim h [ ]
reached (some r) ctx h = (
  r,
  refl,
  h,
  answer (should_fire r.trigger r.state ctx) (should_fire-Fits r.trigger r.state ctx h),
)

-- From a new runner of a trigger whose delays are within 2 ^ 62, every sequence of firings and of
-- arrivals of elements at times within 2 ^ 62 runs to its end without an index out of range; the
-- runner it ends in has a state that mirrors its trigger, in which no sum of a first arrival and a
-- delay overflows, and it answers whether it should fire.
pub run-IsTotal :
    (t : Trigger) (es : List Event) (ctx : TriggerContext)
    → IsModerateTrigger t
    → AllModerate es
    → (r : TriggerRunner) × (run (new t) es ≡ some r)
      × Fits r.trigger r.state
      × ((b : Bool) × (runner_should_fire r ctx ≡ some b))
unfolding new
run-IsTotal t es ctx short m =
    reached (run (new t) es) ctx (run-Fits (new t) es m (fresh-Fits t short))
