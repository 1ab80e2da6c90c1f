-- ===== src/Trigger/Runner/Latch.antt =====
-- When the triggers of flaredb/src/engine/trigger.rs that latch are ready, as a function of what
-- has happened to the runner.
use flare_db.Base.{
  ℕ, suc, ◌+◌, ◌≡◌, refl, sym, ◌∙◌, ℤ, Bool, true, false, not, ◌&&◌, ◌||◌, Option, none, some,
  some_eq, none≢some, ap, leb_ℤ, ◌+ℤ◌, List, [], ◌∷◌, leb, arith,
}
use flare_db.Base.I64.{IsI64, wrapping_add-exact}
use flare_db.Trigger.Syntax.{element_count, after_processing_time}
use flare_db.Trigger.Runner.{
  TriggerContext, node, leaf, ◌>>=◌, fresh, arrived, element, delay_passed, should_fire, fire,
  TriggerRunner, new, on_element, runner_should_fire, on_fire, Event, arrival, firing, handle, run,
}

pub bind-inversion :
    {A B : Type 0} (o : Option A) (f : A → Option B) (b : B)
    → o >>= f ≡ some b
    → (a : A) × (o ≡ some a) × (f a ≡ some b)
bind-inversion none f b h = absurd (none≢some none b refl h)
bind-inversion (some a) f b h = (a, refl, h)

unfoldable pub arrivals : List Event → ℕ
arrivals [] = 0
arrivals (arrival now ∷ es) = suc (arrivals es)
arrivals (firing ctx ∷ es) = arrivals es

unfoldable pub has_fired : List Event → Bool
has_fired [] = false
has_fired (arrival now ∷ es) = has_fired es
has_fired (firing ctx ∷ es) = true

unfoldable pub first_arrival : List Event → Option ℤ
first_arrival [] = none
first_arrival (arrival now ∷ es) = some now
first_arrival (firing ctx ∷ es) = first_arrival es

pub or_true : (f : Bool) → (f || true) ≡ true
or_true true = refl
or_true false = refl

pub or_false : (f : Bool) → (f || false) ≡ f
or_false true = refl
or_false false = refl

add_zero : (c : ℕ) → c + 0 ≡ c
add_zero c = omega arith

zero_add : (c : ℕ) → 0 + c ≡ c
zero_add c = omega arith

add_suc : (c n : ℕ) → c + 1 + n ≡ c + suc n
add_suc c n = omega arith

abbrev counting : ℕ → Bool → ℕ → TriggerRunner
counting n f c = record { trigger = element_count n; state = node f c none 0 false leaf }

run-counting :
    (n : ℕ) (f : Bool) (c : ℕ) (es : List Event)
    → run (counting n f c) es ≡ some (counting n (f || (has_fired es)) (c + arrivals es))
unfolding run handle on_element on_fire element fire arrivals has_fired
run-counting n f c [] = rw (or_false f, add_zero c) refl
run-counting n f c (arrival now ∷ es) =
    rw (run-counting n f (c + 1) es, add_suc c (arrivals es)) refl
run-counting n f c (firing ctx ∷ es) = rw (run-counting n true c es, or_true f) refl

-- `ElementCount { count: n }` should fire exactly when at least `n` elements have arrived and it has
-- not fired before.
pub element_count-ready :
    (n : ℕ) (es : List Event) (r : TriggerRunner) (ctx : TriggerContext)
    → run (new (element_count n)) es ≡ some r
    → runner_should_fire r ctx ≡ some (leb n (arrivals es) && not (has_fired es))
unfolding new fresh runner_should_fire should_fire
element_count-ready n es r ctx h = rw (r_eq) refl
  where
    r_eq : r ≡ counting n (has_fired es) (arrivals es)
    r_eq = some_eq _ _ (
        sym h
        ∙ run-counting n false 0 es
        ∙ (λ k. some (counting n (has_fired es) (zero_add (arrivals es) k))))

abbrev waiting : ℤ → Bool → Option ℤ → TriggerRunner
waiting d f a = record { trigger = after_processing_time d; state = node f 0 a 0 false leaf }

abbrev if_arrived : Option ℤ → Option ℤ → Option ℤ
if_arrived none later = later
if_arrived (some t) later = some t

if_arrived-none : (a : Option ℤ) → if_arrived a none ≡ a
if_arrived-none none = refl
if_arrived-none (some t) = refl

if_arrived-arrived :
    (a later : Option ℤ) (now : ℤ) → if_arrived (arrived a now) later ≡ if_arrived a (some now)
if_arrived-arrived none later now = refl
if_arrived-arrived (some t) later now = refl

run-waiting :
    (d : ℤ) (f : Bool) (a : Option ℤ) (es : List Event)
    → run (waiting d f a) es
      ≡ some (waiting d (f || (has_fired es)) (if_arrived a (first_arrival es)))
unfolding run handle on_element on_fire element fire first_arrival has_fired
run-waiting d f a [] = rw (or_false f, if_arrived-none a) refl
run-waiting d f a (arrival now ∷ es) =
    rw (run-waiting d f (arrived a now) es, if_arrived-arrived a (first_arrival es) now) refl
run-waiting d f a (firing ctx ∷ es) = rw (run-waiting d true a es, or_true f) refl

-- Whether a delay has passed since a time, if there is one, without a bound on the sum.
abbrev pub has_elapsed : Option ℤ → ℤ → ℤ → Bool
has_elapsed none delay now = false
has_elapsed (some first) delay now = leb_ℤ (first +ℤ delay) now

-- The time and the sum of it and the delay are i64.
abbrev pub IsAddable : Option ℤ → ℤ → Type 0
IsAddable none delay = Unit {0}
IsAddable (some first) delay = IsI64 first × IsI64 (first +ℤ delay)

delay_passed-exact :
    (arrived : Option ℤ) (d now : ℤ)
    → IsI64 d
    → IsAddable arrived d
    → delay_passed arrived d now ≡ has_elapsed arrived d now
delay_passed-exact none d now hd h = refl
delay_passed-exact (some first) d now hd h =
    ap (λ t. leb_ℤ t now) (wrapping_add-exact first d h.0 hd h.1)

-- `AfterProcessingTime` should fire exactly when its delay has passed since the first element arrived
-- and it has not fired before, if the delay, the time of that arrival and their sum are i64.
pub after_processing_time-ready :
    (d : ℤ) (es : List Event) (r : TriggerRunner) (ctx : TriggerContext)
    → IsI64 d
    → IsAddable (first_arrival es) d
    → run (new (after_processing_time d)) es ≡ some r
    → runner_should_fire r ctx
      ≡ some (has_elapsed (first_arrival es) d ctx.processing_time && not (has_fired es))
unfolding new fresh runner_should_fire should_fire
after_processing_time-ready d es r ctx hd ha h = rw (r_eq) (
    ap (λ b. some (b && not (has_fired es)))
      (delay_passed-exact (first_arrival es) d ctx.processing_time hd ha))
  where
    r_eq : r ≡ waiting d (has_fired es) (first_arrival es)
    r_eq = some_eq _ _ (sym h ∙ run-waiting d false none es)
