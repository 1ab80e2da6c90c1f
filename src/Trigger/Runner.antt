-- ===== src/Trigger/Runner.antt =====
-- `TriggerRunner` of flaredb/src/engine/trigger.rs. A panic, which is an index past the children of
-- a node, is `none`.
pub mod Moderate
pub mod Shape
pub mod Latch
pub mod OnTime
pub mod Finished
use flare_db.Base.{
  ℕ, zero, suc, ◌+◌, ℤ, pos, negsuc, Bool, true, false, not, ◌&&◌, ◌||◌, Option, none, some, List,
  [], ◌∷◌, leb, leb_ℤ, if◌then◌else◌,
}
use flare_db.Base.I64.{wrapping_add}
use flare_db.Trigger.Syntax.{
  Trigger, MaybeTrigger, Triggers, default, never, always, element_count, after_processing_time,
  after_synchronized_processing_time, after_watermark, after_all, after_any, after_each, repeat,
  or_finally, absent, present, nil, cons,
}

pub record TriggerContext : Type 0 where
  pub end_of_window : Bool
  pub expired : Bool
  pub processing_time : ℤ

-- The fields fired_once, count, first_arrival, index, finished and children of a node.
mutual
  pub data NodeState : Type 0 where
    node : Bool → ℕ → Option ℤ → ℕ → Bool → NodeStates → NodeState

  pub data NodeStates : Type 0 where
    leaf : NodeStates
    fork : NodeState → NodeStates → NodeStates

infixl 5 ◌>>=◌
abbrev pub ◌>>=◌ {ℓ κ} : {A : Type ℓ} {B : Type κ} → Option A → (A → Option B) → Option B
none >>= f = none
some a >>= f = f a

-- `NodeState::default()` with the given children.
abbrev pub with_children : NodeStates → NodeState
with_children cs = node false 0 none 0 false cs

unfoldable mutual
  pub fresh : Trigger → NodeState
  fresh (after_watermark early late) =
      with_children (fork (fresh_maybe early) (fork (fresh_maybe late) leaf))
  fresh (after_all ts) = with_children (fresh_all ts)
  fresh (after_any ts) = with_children (fresh_all ts)
  fresh (after_each ts) = with_children (fresh_all ts)
  fresh (repeat t) = with_children (fork (fresh t) leaf)
  fresh (or_finally main finally) = with_children (fork (fresh main) (fork (fresh finally) leaf))
  fresh _ = with_children leaf

  pub fresh_maybe : MaybeTrigger → NodeState
  fresh_maybe absent = with_children leaf
  fresh_maybe (present t) = fresh t

  pub fresh_all : Triggers → NodeStates
  fresh_all nil = leaf
  fresh_all (cons t ts) = fork (fresh t) (fresh_all ts)

-- `children[i]`, and the write to it.
unfoldable pub child : ℕ → NodeStates → Option NodeState
child i leaf = none
child zero (fork c cs) = some c
child (suc i) (fork c cs) = child i cs

unfoldable pub set_child : ℕ → NodeState → NodeStates → NodeStates
set_child i d leaf = leaf
set_child zero d (fork c cs) = fork d cs
set_child (suc i) d (fork c cs) = fork c (set_child i d cs)

abbrev pub arrived : Option ℤ → ℤ → Option ℤ
arrived none now = some now
arrived (some t) now = some t

-- Feeds an element. The count is a u64 that does not reach 2 ^ 64.
unfoldable mutual
  unfolding child set_child

  pub element : Trigger → NodeState → ℤ → Option NodeState
  element (element_count n) (node f c a i d cs) now = some (node f (c + 1) a i d cs)
  element (after_processing_time n) (node f c a i d cs) now = some (node f c (arrived a now) i d cs)
  element (after_watermark early late) (node f c a i d cs) now = do
    cs' ← if f then element_at late 1 cs now else element_at early 0 cs now
    some (node f c a i d cs')
  element (after_all ts) (node f c a i d cs) now = do
    cs' ← element_zip ts cs now
    some (node f c a i d cs')
  element (after_any ts) (node f c a i d cs) now = do
    cs' ← element_zip ts cs now
    some (node f c a i d cs')
  element (after_each ts) (node f c a i d cs) now = do
    cs' ← element_zip ts cs now
    some (node f c a i d cs')
  element (repeat t) (node f c a i d leaf) now = some (node f c a i d leaf)
  element (repeat t) (node f c a i d (fork s cs)) now = do
    s' ← element t s now
    some (node f c a i d (fork s' cs))
  element (or_finally main finally) (node f c a i d cs) now = do
    m ← child 0 cs
    m' ← element main m now
    n ← child 1 (set_child 0 m' cs)
    n' ← element finally n now
    some (node f c a i d (set_child 1 n' (set_child 0 m' cs)))
  element _ s now = some s

  -- The optional trigger of a node, on the child at an index.
  pub element_at : MaybeTrigger → ℕ → NodeStates → ℤ → Option NodeStates
  element_at absent i cs now = some cs
  element_at (present t) i cs now = do
    s ← child i cs
    s' ← element t s now
    some (set_child i s' cs)

  -- `subs.iter().zip(children.iter_mut())`
  pub element_zip : Triggers → NodeStates → ℤ → Option NodeStates
  element_zip nil cs now = some cs
  element_zip (cons t ts) leaf now = some leaf
  element_zip (cons t ts) (fork s cs) now = do
    s' ← element t s now
    cs' ← element_zip ts cs now
    some (fork s' cs')

-- The sum of two i64 wraps.
abbrev pub delay_passed : Option ℤ → ℤ → ℤ → Bool
delay_passed none delay now = false
delay_passed (some first) delay now = leb_ℤ (wrapping_add first delay) now

-- `||` and `&&` on a first operand that is known: the second one is not evaluated when it is not
-- needed.
abbrev pub or_else : Option Bool → Bool → Option Bool
or_else second true = some true
or_else second false = second

abbrev pub and_then : Option Bool → Bool → Option Bool
and_then second true = second
and_then second false = some false

unfoldable mutual
  unfolding child

  pub should_fire : Trigger → NodeState → TriggerContext → Option Bool
  should_fire default (node f c a i d cs) ctx = some (ctx.end_of_window && not f)
  should_fire never (node f c a i d cs) ctx = some (ctx.expired && not f)
  should_fire always s ctx = some true
  should_fire after_synchronized_processing_time s ctx = some true
  should_fire (element_count n) (node f c a i d cs) ctx = some (leb n c && not f)
  should_fire (after_processing_time delay) (node f c a i d cs) ctx =
      some (delay_passed a delay ctx.processing_time && not f)
  should_fire (after_watermark early late) (node f c a i d cs) ctx =
      if not ctx.end_of_window
      then should_fire_at early 0 cs false ctx
      else if not f
      then some true
      else should_fire_at late 1 cs true ctx
  should_fire (after_all ts) (node f c a i d cs) ctx = all_fire ts cs ctx
  should_fire (after_any ts) (node f c a i d cs) ctx = any_fires ts cs ctx
  should_fire (after_each ts) (node f c a i d cs) ctx = nth_fires ts i (child i cs) ctx
  should_fire (repeat t) (node f c a i d leaf) ctx = some false
  should_fire (repeat t) (node f c a i d (fork s cs)) ctx = should_fire t s ctx
  should_fire (or_finally main finally) (node f c a i d cs) ctx =
      if d
      then some false
      else child 0 cs
        >>= (λ m. should_fire main m ctx)
        >>= or_else (child 1 cs >>= (λ n. should_fire finally n ctx))

  -- The optional trigger of a node on the child at an index, with what a missing trigger answers.
  pub should_fire_at : MaybeTrigger → ℕ → NodeStates → Bool → TriggerContext → Option Bool
  should_fire_at absent i cs missing ctx = some missing
  should_fire_at (present t) i cs missing ctx = do s ← child i cs; should_fire t s ctx

  pub all_fire : Triggers → NodeStates → TriggerContext → Option Bool
  all_fire nil cs ctx = some true
  all_fire (cons t ts) leaf ctx = some true
  all_fire (cons t ts) (fork s cs) ctx = do b ← should_fire t s ctx; and_then (all_fire ts cs ctx) b

  pub any_fires : Triggers → NodeStates → TriggerContext → Option Bool
  any_fires nil cs ctx = some false
  any_fires (cons t ts) leaf ctx = some false
  any_fires (cons t ts) (fork s cs) ctx = do
    b ← should_fire t s ctx
    or_else (any_fires ts cs ctx) b

  -- The subtrigger at an index, on the child at that index.
  pub nth_fires : Triggers → ℕ → Option NodeState → TriggerContext → Option Bool
  nth_fires nil i s ctx = some false
  nth_fires (cons t ts) zero s ctx = do c ← s; should_fire t c ctx
  nth_fires (cons t ts) (suc i) s ctx = nth_fires ts i s ctx

abbrev pub count_triggers : Triggers → ℕ
count_triggers nil = 0
count_triggers (cons t ts) = suc (count_triggers ts)

-- The branches of `OrFinally`: it finishes, or its main trigger fires.
abbrev pub set_finished_or : Option NodeStates → NodeState → Bool → Option NodeState
set_finished_or main (node f c a i d cs) true = some (node f c a i true cs)
set_finished_or none (node f c a i d cs) false = none
set_finished_or (some ms) (node f c a i d cs) false = some (node f c a i d ms)

unfoldable mutual
  unfolding child set_child should_fire fresh

  pub fire : Trigger → NodeState → TriggerContext → Option NodeState
  fire default (node f c a i d cs) ctx = some (node true c a i d cs)
  fire never (node f c a i d cs) ctx = some (node true c a i d cs)
  fire (element_count n) (node f c a i d cs) ctx = some (node true c a i d cs)
  fire (after_processing_time n) (node f c a i d cs) ctx = some (node true c a i d cs)
  fire always s ctx = some s
  fire after_synchronized_processing_time s ctx = some s
  fire (after_watermark early late) (node f c a i d cs) ctx =
      if not ctx.end_of_window
      then fire_at early 0 cs ctx >>= (λ cs'. some (node f c a i d cs'))
      else if not f
      then reset_at early 0 cs >>= (λ cs'. some (node true c a i d cs'))
      else fire_at late 1 cs ctx >>= (λ cs'. some (node f c a i d cs'))
  fire (after_all ts) (node f c a i d cs) ctx = do
    cs' ← fire_zip ts cs ctx
    some (node f c a i d cs')
  fire (after_any ts) (node f c a i d cs) ctx = do
    cs' ← fire_zip ts cs ctx
    some (node f c a i d cs')
  fire (after_each ts) (node f c a i d cs) ctx = do
    cs' ← fire_nth ts i cs ctx
    some (node f c a (i + 1) (if leb (count_triggers ts) (i + 1) then true else d) cs')
  fire (repeat t) (node f c a i d leaf) ctx = some (node f c a i d leaf)
  fire (repeat t) (node f c a i d (fork s cs)) ctx = do
    s' ← fire t s ctx
    some (node f c a i d (fork (fresh t) cs))
  fire (or_finally main finally) (node f c a i d cs) ctx = do
    n ← child 1 cs
    done ← should_fire finally n ctx
    set_finished_or (child 0 cs >>= (λ m. fire main m ctx) >>= (λ m. some (set_child 0 m cs)))
        (node f c a i d cs) done

  pub fire_at : MaybeTrigger → ℕ → NodeStates → TriggerContext → Option NodeStates
  fire_at absent i cs ctx = some cs
  fire_at (present t) i cs ctx = do s ← child i cs; s' ← fire t s ctx; some (set_child i s' cs)

  -- `children[i] = fresh(early)`
  pub reset_at : MaybeTrigger → ℕ → NodeStates → Option NodeStates
  reset_at absent i cs = some cs
  reset_at (present t) i cs = do s ← child i cs; some (set_child i (fresh t) cs)

  pub fire_zip : Triggers → NodeStates → TriggerContext → Option NodeStates
  fire_zip nil cs ctx = some cs
  fire_zip (cons t ts) leaf ctx = some leaf
  fire_zip (cons t ts) (fork s cs) ctx = do
    s' ← fire t s ctx
    cs' ← fire_zip ts cs ctx
    some (fork s' cs')

  -- The subtrigger at an index fires on the child at that index; past the subtriggers nothing does.
  pub fire_nth : Triggers → ℕ → NodeStates → TriggerContext → Option NodeStates
  fire_nth nil i cs ctx = some cs
  fire_nth (cons t ts) zero leaf ctx = none
  fire_nth (cons t ts) zero (fork s cs) ctx = do s' ← fire t s ctx; some (fork s' cs)
  fire_nth (cons t ts) (suc i) leaf ctx = fire_nth ts i leaf ctx
  fire_nth (cons t ts) (suc i) (fork s cs) ctx = do cs' ← fire_nth ts i cs ctx; some (fork s cs')

pub record TriggerRunner : Type 0 where
  pub trigger : Trigger
  pub state : NodeState

unfoldable pub new : Trigger → TriggerRunner
unfolding fresh
new t = record { trigger = t; state = fresh t }

unfoldable pub on_element : TriggerRunner → ℤ → Option TriggerRunner
unfolding element
on_element r now = do s ← element r.trigger r.state now; some (record r { state = s })

unfoldable pub runner_should_fire : TriggerRunner → TriggerContext → Option Bool
unfolding should_fire
runner_should_fire r ctx = should_fire r.trigger r.state ctx

unfoldable pub on_fire : TriggerRunner → TriggerContext → Option TriggerRunner
unfolding fire
on_fire r ctx = do s ← fire r.trigger r.state ctx; some (record r { state = s })

abbrev pub finished_flag : NodeState → Bool
finished_flag (node f c a i d cs) = d

unfoldable pub is_finished : TriggerRunner → Bool
is_finished r = finished_flag r.state

-- What happens to a runner: an element arrives, or it fires.
pub data Event : Type 0 where
  arrival : ℤ → Event
  firing : TriggerContext → Event

unfoldable pub handle : TriggerRunner → Event → Option TriggerRunner
unfolding on_element on_fire
handle r (arrival now) = on_element r now
handle r (firing ctx) = on_fire r ctx

unfoldable pub run : TriggerRunner → List Event → Option TriggerRunner
unfolding handle
run r [] = some r
run r (e ∷ es) = handle r e >>= (λ r'. run r' es)
