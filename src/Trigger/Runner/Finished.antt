-- ===== src/Trigger/Runner/Finished.antt =====
-- `is_finished` of flaredb/src/engine/trigger.rs.
use flare_db.Base.{
  ℕ, zero, suc, ◌+◌, ◌≡◌, refl, sym, ℤ, Bool, true, false, not, Option, none, some, some_eq,
  none≢some, true≢false, List, [], ◌∷◌, leb, if◌then◌else◌, arith,
}
use flare_db.Trigger.Syntax.{
  Trigger, Triggers, default, never, always, element_count, after_processing_time,
  after_synchronized_processing_time, after_watermark, after_all, after_any, after_each, repeat,
  or_finally, nil, cons,
}
use flare_db.Trigger.Runner.{
  TriggerContext, NodeState, NodeStates, node, leaf, fork, ◌>>=◌, fresh, child, set_child, element,
  element_at, element_zip, should_fire, nth_fires, count_triggers, set_finished_or, fire, fire_at,
  reset_at, fire_zip, fire_nth, TriggerRunner, new, on_element, runner_should_fire, on_fire,
  finished_flag, is_finished, Event, arrival, firing, handle, run,
}
use flare_db.Trigger.Runner.Latch.{bind-inversion}

-- What the flag of a node means: only `AfterEach` and `OrFinally` set it, the first when no subtrigger
-- is left.
abbrev IsTruthful : Trigger → NodeState → Type 0
IsTruthful (after_each ts) (node f c a i d cs) = d ≡ true → leb (count_triggers ts) i ≡ true
IsTruthful (or_finally main finally) s = Unit {0}
IsTruthful t s = finished_flag s ≡ false

-- A node that no longer fires.
abbrev IsEnded : Trigger → NodeState → Type 0
IsEnded (after_each ts) (node f c a i d cs) = leb (count_triggers ts) i ≡ true
IsEnded (or_finally main finally) s = finished_flag s ≡ true
IsEnded t s = ⊥

-- A predicate of a result, if there is one.
abbrev Ensures : {A : Type 0} → (A → Type 0) → Option A → Type 0
Ensures P none = Unit {0}
Ensures P (some a) = P a

ended : (t : Trigger) (s : NodeState) → IsTruthful t s → finished_flag s ≡ true → IsEnded t s
ended (after_each ts) (node f c a i d cs) h k = h k
ended (or_finally main finally) s h k = k
ended t s h k = true≢false _ k h

fresh-IsTruthful : (t : Trigger) → IsTruthful t (fresh t)
unfolding fresh
fresh-IsTruthful (after_each ts) = λ k. absurd (true≢false _ k refl)
fresh-IsTruthful (or_finally main finally) = tt
fresh-IsTruthful t = refl

bind-Ensures :
    {A B : Type 0} (Q : B → Type 0) (o : Option A) (f : A → B)
    → ((a : A) → Q (f a))
    → Ensures Q (o >>= (λ a. some (f a)))
bind-Ensures Q none f h = tt
bind-Ensures Q (some a) f h = h a

then-Ensures :
    {A B : Type 0} (Q : B → Type 0) (o : Option A) (f : A → Option B)
    → ((a : A) → Ensures Q (f a))
    → Ensures Q (o >>= f)
then-Ensures Q none f h = tt
then-Ensures Q (some a) f h = h a

finished_or-IsEnded :
    (main finally : Trigger) (o : Option NodeStates) (f : Bool) (c : ℕ) (a : Option ℤ) (i : ℕ)
    (d : Bool) (cs : NodeStates) (done : Bool)
    → d ≡ true
    → Ensures (IsEnded (or_finally main finally)) (set_finished_or o (node f c a i d cs) done)
finished_or-IsEnded main finally o f c a i d cs true h = refl
finished_or-IsEnded main finally none f c a i d cs false h = tt
finished_or-IsEnded main finally (some ms) f c a i d cs false h = h

ensured : {A : Type 0} (o : Option A) → Ensures (λ a. Unit {0}) o
ensured none = tt
ensured (some a) = tt

leb_next : (n i : ℕ) → leb n i ≡ true → leb n (i + 1) ≡ true
leb_next n i h = ground (arith, h)

each_flag :
    (n i : ℕ) (d : Bool)
    → (d ≡ true → leb n i ≡ true)
    → (if leb n (i + 1) then true else d) ≡ true
    → leb n (i + 1) ≡ true
each_flag n i true h k = leb_next n i (h refl)
each_flag n i false h k = ground (arith, k)

watermark_fire-Ensures :
    (now_ended f : Bool) (c : ℕ) (a : Option ℤ) (i : ℕ) (d : Bool) (o p q : Option NodeStates)
    → d ≡ false
    → Ensures
        (λ s. finished_flag s ≡ false)
        (if not now_ended
          then o >>= (λ cs. some (node f c a i d cs))
          else if not f
          then p >>= (λ cs. some (node true c a i d cs))
          else q >>= (λ cs. some (node f c a i d cs)))
watermark_fire-Ensures false f c a i d o p q h =
    bind-Ensures (λ s. finished_flag s ≡ false) o (λ cs. node f c a i d cs) (λ cs. h)
watermark_fire-Ensures true false c a i d o p q h =
    bind-Ensures (λ s. finished_flag s ≡ false) p (λ cs. node true c a i d cs) (λ cs. h)
watermark_fire-Ensures true true c a i d o p q h =
    bind-Ensures (λ s. finished_flag s ≡ false) q (λ cs. node true c a i d cs) (λ cs. h)

element-IsTruthful :
    (t : Trigger) (s : NodeState) (now : ℤ)
    → IsTruthful t s
    → Ensures (IsTruthful t) (element t s now)
unfolding element
element-IsTruthful (element_count n) (node f c a i d cs) now h = h
element-IsTruthful (after_processing_time n) (node f c a i d cs) now h = h
element-IsTruthful (after_watermark early late) (node f c a i d cs) now h =
    bind-Ensures (IsTruthful (after_watermark early late))
      (if f then element_at late 1 cs now else element_at early 0 cs now)
      (λ cs'. node f c a i d cs') (λ cs'. h)
element-IsTruthful (after_all ts) (node f c a i d cs) now h =
    bind-Ensures (IsTruthful (after_all ts)) (element_zip ts cs now) (λ cs'. node f c a i d cs')
      (λ cs'. h)
element-IsTruthful (after_any ts) (node f c a i d cs) now h =
    bind-Ensures (IsTruthful (after_any ts)) (element_zip ts cs now) (λ cs'. node f c a i d cs')
      (λ cs'. h)
element-IsTruthful (after_each ts) (node f c a i d cs) now h =
    bind-Ensures (IsTruthful (after_each ts)) (element_zip ts cs now) (λ cs'. node f c a i d cs')
      (λ cs'. h)
element-IsTruthful (repeat t) (node f c a i d leaf) now h = h
element-IsTruthful (repeat t) (node f c a i d (fork s cs)) now h =
    bind-Ensures (IsTruthful (repeat t)) (element t s now) (λ s'. node f c a i d (fork s' cs))
      (λ s'. h)
element-IsTruthful (or_finally main finally) s now h =
    ensured (element (or_finally main finally) s now)
element-IsTruthful default s now h = h
element-IsTruthful never s now h = h
element-IsTruthful always s now h = h
element-IsTruthful after_synchronized_processing_time s now h = h

fire-IsTruthful :
    (t : Trigger) (s : NodeState) (ctx : TriggerContext)
    → IsTruthful t s
    → Ensures (IsTruthful t) (fire t s ctx)
unfolding fire
fire-IsTruthful default (node f c a i d cs) ctx h = h
fire-IsTruthful never (node f c a i d cs) ctx h = h
fire-IsTruthful (element_count n) (node f c a i d cs) ctx h = h
fire-IsTruthful (after_processing_time n) (node f c a i d cs) ctx h = h
fire-IsTruthful always s ctx h = h
fire-IsTruthful after_synchronized_processing_time s ctx h = h
fire-IsTruthful (after_watermark early late) (node f c a i d cs) ctx h =
    watermark_fire-Ensures ctx.end_of_window f c a i d (fire_at early 0 cs ctx)
      (reset_at early 0 cs) (fire_at late 1 cs ctx) h
fire-IsTruthful (after_all ts) (node f c a i d cs) ctx h =
    bind-Ensures (IsTruthful (after_all ts)) (fire_zip ts cs ctx) (λ cs'. node f c a i d cs')
      (λ cs'. h)
fire-IsTruthful (after_any ts) (node f c a i d cs) ctx h =
    bind-Ensures (IsTruthful (after_any ts)) (fire_zip ts cs ctx) (λ cs'. node f c a i d cs')
      (λ cs'. h)
fire-IsTruthful (after_each ts) (node f c a i d cs) ctx h =
    bind-Ensures (IsTruthful (after_each ts)) (fire_nth ts i cs ctx)
      (λ cs'. node f c a (i + 1) (if leb (count_triggers ts) (i + 1) then true else d) cs')
      (λ cs' k. each_flag (count_triggers ts) i d h k)
fire-IsTruthful (repeat t) (node f c a i d leaf) ctx h = h
fire-IsTruthful (repeat t) (node f c a i d (fork s cs)) ctx h =
    bind-Ensures (IsTruthful (repeat t)) (fire t s ctx) (λ s'. node f c a i d (fork (fresh t) cs))
      (λ s'. h)
fire-IsTruthful (or_finally main finally) s ctx h = ensured (fire (or_finally main finally) s ctx)

-- The flag of `OrFinally` is kept, and so is the index of `AfterEach` past the end.
element-IsEnded :
    (t : Trigger) (s : NodeState) (now : ℤ) → IsEnded t s → Ensures (IsEnded t) (element t s now)
unfolding element
element-IsEnded (after_each ts) (node f c a i d cs) now h =
    bind-Ensures (IsEnded (after_each ts)) (element_zip ts cs now) (λ cs'. node f c a i d cs')
      (λ cs'. h)
element-IsEnded (or_finally main finally) (node f c a i d cs) now h =
    then-Ensures (IsEnded (or_finally main finally)) (child 0 cs) _ (λ m.
      then-Ensures (IsEnded (or_finally main finally)) (element main m now) _ (λ m'.
        then-Ensures (IsEnded (or_finally main finally)) (child 1 (set_child 0 m' cs)) _ (λ n.
          bind-Ensures (IsEnded (or_finally main finally)) (element finally n now)
            (λ n'. node f c a i d (set_child 1 n' (set_child 0 m' cs))) (λ n'. h))))
element-IsEnded t s now h = elim h [ ]

fire-IsEnded :
    (t : Trigger) (s : NodeState) (ctx : TriggerContext)
    → IsEnded t s
    → Ensures (IsEnded t) (fire t s ctx)
unfolding fire
fire-IsEnded (after_each ts) (node f c a i d cs) ctx h =
    bind-Ensures (IsEnded (after_each ts)) (fire_nth ts i cs ctx)
      (λ cs'. node f c a (i + 1) (if leb (count_triggers ts) (i + 1) then true else d) cs')
      (λ cs'. leb_next (count_triggers ts) i h)
fire-IsEnded (or_finally main finally) (node f c a i d cs) ctx h =
    then-Ensures (IsEnded (or_finally main finally)) (child 1 cs) _ (λ n.
      then-Ensures (IsEnded (or_finally main finally)) (should_fire finally n ctx) _ (λ done.
        finished_or-IsEnded main finally
          (child 0 cs >>= (λ m. fire main m ctx) >>= (λ m. some (set_child 0 m cs))) f c a i d cs
          done h))
fire-IsEnded t s ctx h = elim h [ ]

nth_past :
    (ts : Triggers) (i : ℕ) (s : Option NodeState) (ctx : TriggerContext)
    → leb (count_triggers ts) i ≡ true
    → nth_fires ts i s ctx ≡ some false
unfolding nth_fires
nth_past nil i s ctx h = refl
nth_past (cons t ts) zero s ctx h = absurd (ground (arith, h))
nth_past (cons t ts) (suc i) s ctx h = nth_past ts i s ctx (ground (arith, h))

ended-silent :
    (t : Trigger) (s : NodeState) (ctx : TriggerContext)
    → IsEnded t s
    → should_fire t s ctx ≡ some false
unfolding should_fire
ended-silent (after_each ts) (node f c a i d cs) ctx h = nth_past ts i (child i cs) ctx h
ended-silent (or_finally main finally) (node f c a i d cs) ctx h = rw (h) refl
ended-silent t s ctx h = elim h [ ]

-- A predicate on the states of a trigger that elements and firings keep is kept by every run.
module _ (t : Trigger) (P : NodeState → Type 0)
    (by_element : (s : NodeState) (now : ℤ) → P s → Ensures P (element t s now))
    (by_fire : (s : NodeState) (ctx : TriggerContext) → P s → Ensures P (fire t s ctx)) where
  abbrev runner : NodeState → TriggerRunner
  runner s = record { trigger = t; state = s }

  kept :
      (o : Option NodeState) (r : TriggerRunner)
      → Ensures P o
      → o >>= (λ u. some (runner u)) ≡ some r
      → (u : NodeState) × (r ≡ runner u) × P u
  kept none r p h = absurd (none≢some none r refl h)
  kept (some u) r p h = (u, sym (some_eq _ _ h), p)

  handle-keeps :
      (s : NodeState) (e : Event) (r : TriggerRunner)
      → P s
      → handle (runner s) e ≡ some r
      → (u : NodeState) × (r ≡ runner u) × P u
  unfolding handle on_element on_fire
  handle-keeps s (arrival now) r p h = kept (element t s now) r (by_element s now p) h
  handle-keeps s (firing ctx) r p h = kept (fire t s ctx) r (by_fire s ctx p) h

  run-keeps :
      (s : NodeState) (es : List Event) (r : TriggerRunner)
      → P s
      → run (runner s) es ≡ some r
      → (u : NodeState) × (r ≡ runner u) × P u
  unfolding run
  run-keeps s [] r p h = (s, sym (some_eq _ _ h), p)
  run-keeps s (e ∷ es) r p h =
      let (m, first, rest) = bind-inversion (handle (runner s) e) (λ m. run m es) r h in
      let (u, m_eq, q) = handle-keeps s e m p first in run-keeps u es r q (rw (m_eq) at rest)

-- Once `is_finished` holds of a runner, no element or firing makes it fire again.
pub finished-IsSilent :
    (t : Trigger) (before after : List Event) (r r' : TriggerRunner) (ctx : TriggerContext)
    → run (new t) before ≡ some r
    → is_finished r ≡ true
    → run r after ≡ some r'
    → runner_should_fire r' ctx ≡ some false
unfolding new is_finished runner_should_fire
finished-IsSilent t before after r r' ctx h done k =
    let (s, r_eq, p) =
      run-keeps t (IsTruthful t) (element-IsTruthful t) (fire-IsTruthful t) (fresh t) before r
        (fresh-IsTruthful t) h in
    let done' : finished_flag s ≡ true = rw (r_eq) at done in
    let (u, r'_eq, q) =
      run-keeps t (IsEnded t) (element-IsEnded t) (fire-IsEnded t) s after r' (ended t s p done')
        (rw (r_eq) at k) in
    rw (r'_eq) (ended-silent t u ctx q)
