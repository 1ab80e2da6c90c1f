-- ===== src/Trigger/Runner/OnTime.antt =====
-- The on-time firing of `AfterWatermark` and the reset of `Repeat` in flaredb/src/engine/trigger.rs.
use flare_db.Base.{
  ◌≡◌, refl, sym, ◌∙◌, Bool, true, false, not, ◌||◌, Option, none, some, some_eq, none≢some, List,
  [], ◌∷◌, if◌then◌else◌,
}
use flare_db.Trigger.Syntax.{Trigger, MaybeTrigger, after_watermark, repeat}
use flare_db.Trigger.Runner.{
  TriggerContext, NodeState, NodeStates, node, leaf, fork, ◌>>=◌, with_children, fresh, element,
  element_at, should_fire, fire, fire_at, reset_at, TriggerRunner, new, on_element,
  runner_should_fire, on_fire, Event, arrival, firing, handle, run,
}
use flare_db.Trigger.Runner.Latch.{or_false, bind-inversion}

abbrev pub is_on_time : Event → Bool
is_on_time (arrival now) = false
is_on_time (firing ctx) = ctx.end_of_window

-- Whether one of the firings came at or after the end of the window.
unfoldable pub has_fired_on_time : List Event → Bool
has_fired_on_time [] = false
has_fired_on_time (e ∷ es) = is_on_time e || has_fired_on_time es

abbrev watermarked : MaybeTrigger → MaybeTrigger → Bool → NodeStates → TriggerRunner
watermarked early late f cs = record {
  trigger = after_watermark early late;
  state = node f 0 none 0 false cs;
}

-- A runner of `AfterWatermark`, latched or not.
abbrev IsLatched : MaybeTrigger → MaybeTrigger → Bool → TriggerRunner → Type 0
IsLatched early late f r = (cs : NodeStates) × (r ≡ watermarked early late f cs)

-- What a bind that rebuilds the node returns.
rebuilt :
    (early late : MaybeTrigger) (f : Bool) (o : Option NodeStates) (r : TriggerRunner)
    → o
        >>= (λ cs. some (node f 0 none 0 false cs))
        >>= (λ s. some (record { trigger = after_watermark early late; state = s }))
      ≡ some r
    → IsLatched early late f r
rebuilt early late f none r h = absurd (none≢some none r refl h)
rebuilt early late f (some cs) r h = (cs, sym (some_eq _ _ h))

fired-IsLatched :
    (early late : MaybeTrigger) (ended f : Bool) (o p q : Option NodeStates) (r : TriggerRunner)
    → (if not ended
          then o >>= (λ cs. some (node f 0 none 0 false cs))
          else if not f
          then p >>= (λ cs. some (node true 0 none 0 false cs))
          else q >>= (λ cs. some (node f 0 none 0 false cs)))
        >>= (λ s. some (record { trigger = after_watermark early late; state = s }))
      ≡ some r
    → IsLatched early late (f || ended) r
fired-IsLatched early late false true o p q r h = rebuilt early late true o r h
fired-IsLatched early late false false o p q r h = rebuilt early late false o r h
fired-IsLatched early late true true o p q r h = rebuilt early late true q r h
fired-IsLatched early late true false o p q r h = rebuilt early late true p r h

or_assoc : (f a b : Bool) → ((f || a) || b) ≡ (f || (a || b))
or_assoc true a b = refl
or_assoc false a b = refl

handle-IsLatched :
    (early late : MaybeTrigger) (f : Bool) (cs : NodeStates) (e : Event) (r : TriggerRunner)
    → handle (watermarked early late f cs) e ≡ some r
    → IsLatched early late (f || is_on_time e) r
unfolding handle on_element on_fire element fire
handle-IsLatched early late true cs (arrival now) r h =
    rebuilt early late true (element_at late 1 cs now) r h
handle-IsLatched early late false cs (arrival now) r h =
    rebuilt early late false (element_at early 0 cs now) r h
handle-IsLatched early late f cs (firing ctx) r h =
    fired-IsLatched early late ctx.end_of_window f (fire_at early 0 cs ctx) (reset_at early 0 cs)
      (fire_at late 1 cs ctx) r h

run-IsLatched :
    (early late : MaybeTrigger) (f : Bool) (cs : NodeStates) (es : List Event) (r : TriggerRunner)
    → run (watermarked early late f cs) es ≡ some r
    → IsLatched early late (f || has_fired_on_time es) r
unfolding run has_fired_on_time
run-IsLatched early late f cs [] r h =
    (cs, sym (some_eq _ _ h) ∙ sym (λ k. watermarked early late (or_false f k) cs))
run-IsLatched early late f cs (e ∷ es) r h =
    let (m, first, rest) =
      bind-inversion (handle (watermarked early late f cs) e) (λ m. run m es) r h in
    let (cs', m_eq) = handle-IsLatched early late f cs e m first in
    let (cs'', r_eq) = run-IsLatched early late (f || is_on_time e) cs' es r (rw (m_eq) at rest) in
    (
      cs'',
      r_eq
          ∙ (λ k. watermarked early late (or_assoc f (is_on_time e) (has_fired_on_time es) k) cs''),
    )

-- As long as no firing has come at or after the end of its window, a runner of `AfterWatermark` should
-- fire as soon as the window ends: elements and early firings do not use up the on-time firing.
pub after_watermark-on_time :
    (early late : MaybeTrigger) (es : List Event) (r : TriggerRunner) (ctx : TriggerContext)
    → run (new (after_watermark early late)) es ≡ some r
    → has_fired_on_time es ≡ false
    → ctx.end_of_window ≡ true
    → runner_should_fire r ctx ≡ some true
unfolding new fresh runner_should_fire should_fire
after_watermark-on_time early late es r ctx h k ended =
    let (cs, r_eq) = run-IsLatched early late false _ es r h in rw (r_eq, k, ended) refl

abbrev repeating : Trigger → NodeState → TriggerRunner
repeating t s = record { trigger = repeat t; state = with_children (fork s leaf) }

-- What a bind that rebuilds the node of a `Repeat` returns.
rebuilt_repeat :
    (t : Trigger) (g : NodeState → NodeState) (o : Option NodeState) (r : TriggerRunner)
    → o
        >>= (λ s. some (with_children (fork (g s) leaf)))
        >>= (λ s. some (record { trigger = repeat t; state = s }))
      ≡ some r
    → (s : NodeState) × (r ≡ repeating t (g s))
rebuilt_repeat t g none r h = absurd (none≢some none r refl h)
rebuilt_repeat t g (some s) r h = (s, sym (some_eq _ _ h))

handle-repeating :
    (t : Trigger) (s : NodeState) (e : Event) (r : TriggerRunner)
    → handle (repeating t s) e ≡ some r
    → (u : NodeState) × (r ≡ repeating t u)
unfolding handle on_element on_fire element fire
handle-repeating t s (arrival now) r h = rebuilt_repeat t (λ u. u) (element t s now) r h
handle-repeating t s (firing ctx) r h =
    let (u, r_eq) = rebuilt_repeat t (λ u. fresh t) (fire t s ctx) r h in (fresh t, r_eq)

run-repeating :
    (t : Trigger) (s : NodeState) (es : List Event) (r : TriggerRunner)
    → run (repeating t s) es ≡ some r
    → (u : NodeState) × (r ≡ repeating t u)
unfolding run
run-repeating t s [] r h = (s, sym (some_eq _ _ h))
run-repeating t s (e ∷ es) r h =
    let (m, first, rest) = bind-inversion (handle (repeating t s) e) (λ m. run m es) r h in
    let (u, m_eq) = handle-repeating t s e m first in run-repeating t u es r (rw (m_eq) at rest)

-- A firing of `Repeat` puts its runner back to the new one, whatever has happened to it.
pub repeat-on_fire :
    (t : Trigger) (es : List Event) (r r' : TriggerRunner) (ctx : TriggerContext)
    → run (new (repeat t)) es ≡ some r
    → on_fire r ctx ≡ some r'
    → r' ≡ new (repeat t)
unfolding new fresh on_fire fire
repeat-on_fire t es r r' ctx h fired =
    let (s, r_eq) = run-repeating t _ es r h in
    let (u, r'_eq) = rebuilt_repeat t (λ u. fresh t) (fire t s ctx) r' (rw (r_eq) at fired) in r'_eq
