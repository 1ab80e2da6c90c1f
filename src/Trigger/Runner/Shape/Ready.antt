-- ===== src/Trigger/Runner/Shape/Ready.antt =====
-- `should_fire` of flaredb/src/engine/trigger.rs on a state that mirrors its trigger.
use flare_db.Base.{ℕ, zero, suc, Bool, true, false, not, Option, some, if◌then◌else◌}
use flare_db.Trigger.Syntax.{
  Trigger, MaybeTrigger, Triggers, default, never, always, after_watermark, after_all, after_any,
  after_each, repeat, or_finally, nil, cons,
}
use flare_db.Trigger.Runner.{
  TriggerContext, NodeState, NodeStates, node, leaf, fork, child, or_else, and_then, should_fire,
  should_fire_at, all_fire, any_fires, nth_fires,
}
use flare_db.Trigger.Runner.Shape.{
  Fits, default_fits, never_fits, always_fits, count_fits, time_fits, synchronized_fits,
  watermark_fits, all_fits, any_fits, each_fits, repeat_fits, or_finally_fits, absent_fits,
  present_fits, FitsTwo, two_fit, FitsAll, cons_fits, Returns, IsAny, bind-Returns, if-Returns,
}

or_else-Returns : (o : Option Bool) (b : Bool) → Returns IsAny o → Returns IsAny (or_else o b)
or_else-Returns o true h = tt
or_else-Returns o false h = h

and_then-Returns : (o : Option Bool) (b : Bool) → Returns IsAny o → Returns IsAny (and_then o b)
and_then-Returns o true h = h
and_then-Returns o false h = tt

mutual
  unfolding should_fire child

  pub should_fire-Fits :
      (t : Trigger) (s : NodeState) (ctx : TriggerContext)
      → Fits t s
      → Returns IsAny (should_fire t s ctx)
  should_fire-Fits default (node f c a i d cs) ctx default_fits = tt
  should_fire-Fits never (node f c a i d cs) ctx never_fits = tt
  should_fire-Fits always s ctx always_fits = tt
  should_fire-Fits _ (node f c a i d cs) ctx count_fits = tt
  should_fire-Fits _ (node f c a i d cs) ctx (time_fits h k l) = tt
  should_fire-Fits _ s ctx synchronized_fits = tt
  should_fire-Fits (after_watermark early late) (node f c a i d cs) ctx (watermark_fits h) =
      if-Returns IsAny (not ctx.end_of_window) (should_fire_at early 0 cs false ctx)
        (if not f then some true else should_fire_at late 1 cs true ctx)
        (early_fires-Fits early late cs ctx h)
        (if-Returns IsAny (not f) (some true) (should_fire_at late 1 cs true ctx) tt
          (late_fires-Fits early late cs ctx h))
  should_fire-Fits (after_all ts) (node f c a i d cs) ctx (all_fits h) = all_fire-Fits ts cs ctx h
  should_fire-Fits (after_any ts) (node f c a i d cs) ctx (any_fits h) = any_fires-Fits ts cs ctx h
  should_fire-Fits (after_each ts) (node f c a i d cs) ctx (each_fits h) =
      nth_fires-Fits ts cs i ctx h
  should_fire-Fits (repeat t) (node f c a i d (fork s leaf)) ctx (repeat_fits h) =
      should_fire-Fits t s ctx h
  should_fire-Fits (or_finally main finally) (node f c a i true (fork s (fork u leaf))) ctx
        (or_finally_fits h k) =
      tt
  should_fire-Fits (or_finally main finally) (node f c a i false (fork s (fork u leaf))) ctx
        (or_finally_fits h k) =
      bind-Returns IsAny (should_fire main s ctx) _ (should_fire-Fits main s ctx h)
        (λ b b_h. or_else-Returns (should_fire finally u ctx) b (should_fire-Fits finally u ctx k))

  all_fire-Fits :
      (ts : Triggers) (cs : NodeStates) (ctx : TriggerContext)
      → FitsAll ts cs
      → Returns IsAny (all_fire ts cs ctx)
  all_fire-Fits nil cs ctx h = tt
  all_fire-Fits (cons t ts) leaf ctx h = tt
  all_fire-Fits (cons t ts) (fork s cs) ctx (cons_fits h hs) =
      bind-Returns IsAny (should_fire t s ctx) _ (should_fire-Fits t s ctx h)
        (λ b b_h. and_then-Returns (all_fire ts cs ctx) b (all_fire-Fits ts cs ctx hs))

  any_fires-Fits :
      (ts : Triggers) (cs : NodeStates) (ctx : TriggerContext)
      → FitsAll ts cs
      → Returns IsAny (any_fires ts cs ctx)
  any_fires-Fits nil cs ctx h = tt
  any_fires-Fits (cons t ts) leaf ctx h = tt
  any_fires-Fits (cons t ts) (fork s cs) ctx (cons_fits h hs) =
      bind-Returns IsAny (should_fire t s ctx) _ (should_fire-Fits t s ctx h)
        (λ b b_h. or_else-Returns (any_fires ts cs ctx) b (any_fires-Fits ts cs ctx hs))

  nth_fires-Fits :
      (ts : Triggers) (cs : NodeStates) (i : ℕ) (ctx : TriggerContext)
      → FitsAll ts cs
      → Returns IsAny (nth_fires ts i (child i cs) ctx)
  nth_fires-Fits nil cs i ctx h = tt
  nth_fires-Fits (cons t ts) leaf i ctx h = elim h [ ]
  nth_fires-Fits (cons t ts) (fork s cs) zero ctx (cons_fits h hs) = should_fire-Fits t s ctx h
  nth_fires-Fits (cons t ts) (fork s cs) (suc i) ctx (cons_fits h hs) =
      nth_fires-Fits ts cs i ctx hs

  early_fires-Fits :
      (early late : MaybeTrigger) (cs : NodeStates) (ctx : TriggerContext)
      → FitsTwo early late cs
      → Returns IsAny (should_fire_at early 0 cs false ctx)
  early_fires-Fits _ _ _ ctx (two_fit absent_fits k) = tt
  early_fires-Fits _ _ _ ctx (two_fit {s = s} (present_fits {t} h) k) = should_fire-Fits t s ctx h

  late_fires-Fits :
      (early late : MaybeTrigger) (cs : NodeStates) (ctx : TriggerContext)
      → FitsTwo early late cs
      → Returns IsAny (should_fire_at late 1 cs true ctx)
  late_fires-Fits _ _ _ ctx (two_fit h absent_fits) = tt
  late_fires-Fits _ _ _ ctx (two_fit {u = u} h (present_fits {t} k)) = should_fire-Fits t u ctx k
