-- ===== src/Trigger/Runner/Shape/Fire.antt =====
-- `fire` of flaredb/src/engine/trigger.rs on a state that mirrors its trigger.
use flare_db.Base.{ℕ, zero, suc, ℤ, Bool, true, false, not, Option, none, some, if◌then◌else◌}
use flare_db.Trigger.Syntax.{
  Trigger, MaybeTrigger, Triggers, default, never, always, after_watermark, after_all, after_any,
  after_each, repeat, or_finally, nil, cons,
}
use flare_db.Trigger.Runner.{
  TriggerContext, NodeState, NodeStates, node, leaf, fork, ◌>>=◌, child, set_child, should_fire,
  set_finished_or, fire, fire_at, reset_at, fire_zip, fire_nth,
}
use flare_db.Trigger.Runner.Shape.Ready.{should_fire-Fits}
use flare_db.Trigger.Runner.Shape.{
  Fits, default_fits, never_fits, always_fits, count_fits, time_fits, synchronized_fits,
  watermark_fits, all_fits, any_fits, each_fits, repeat_fits, or_finally_fits, absent_fits,
  present_fits, FitsTwo, two_fit, FitsAll, cons_fits, Returns, bind-Returns, watermark_bind,
  refresh-Fits,
}

reset_early-Fits :
    (early late : MaybeTrigger) (cs : NodeStates)
    → FitsTwo early late cs
    → Returns (FitsTwo early late) (reset_at early 0 cs)
unfolding reset_at child set_child
reset_early-Fits _ _ _ (two_fit absent_fits k) = two_fit absent_fits k
reset_early-Fits _ _ _ (two_fit (present_fits {t} h) k) =
    two_fit (present_fits (refresh-Fits t _ h)) k

finished_or-Fits :
    (main finally : Trigger) (o : Option NodeState) (f : Bool) (c : ℕ) (a : Option ℤ) (i : ℕ)
    (d : Bool) (s u : NodeState) (b : Bool)
    → Fits finally u
    → Fits main s
    → Returns (Fits main) o
    → Returns (Fits (or_finally main finally)) (
        set_finished_or
          (o >>= (λ m. some (fork m (fork u leaf))))
          (node f c a i d (fork s (fork u leaf)))
          b)
finished_or-Fits main finally o f c a i d s u true k h h' = or_finally_fits h k
finished_or-Fits main finally (some m) f c a i d s u false k h h' = or_finally_fits h' k
finished_or-Fits main finally none f c a i d s u false k h h' = h'

watermark_fire-Fits :
    (ended : Bool) (early late : MaybeTrigger) (f : Bool) (c : ℕ) (a : Option ℤ) (i : ℕ) (d : Bool)
    (o p q : Option NodeStates)
    → Returns (FitsTwo early late) o
    → Returns (FitsTwo early late) p
    → Returns (FitsTwo early late) q
    → Returns (Fits (after_watermark early late)) (
        if not ended
        then o >>= (λ cs. some (node f c a i d cs))
        else if not f
        then p >>= (λ cs. some (node true c a i d cs))
        else q >>= (λ cs. some (node f c a i d cs)))
watermark_fire-Fits false early late f c a i d o p q h k l = watermark_bind early late o f c a i d h
watermark_fire-Fits true early late false c a i d o p q h k l =
    watermark_bind early late p true c a i d k
watermark_fire-Fits true early late true c a i d o p q h k l =
    watermark_bind early late q true c a i d l

mutual
  unfolding fire set_child child

  pub fire-Fits :
      (t : Trigger) (s : NodeState) (ctx : TriggerContext)
      → Fits t s
      → Returns (Fits t) (fire t s ctx)
  fire-Fits default (node f c a i d cs) ctx default_fits = default_fits
  fire-Fits never (node f c a i d cs) ctx never_fits = never_fits
  fire-Fits always s ctx always_fits = always_fits
  fire-Fits _ (node f c a i d cs) ctx count_fits = count_fits
  fire-Fits _ (node f c a i d cs) ctx (time_fits h k l) = time_fits h k l
  fire-Fits _ s ctx synchronized_fits = synchronized_fits
  fire-Fits (after_watermark early late) (node f c a i d cs) ctx (watermark_fits h) =
      watermark_fire-Fits ctx.end_of_window early late f c a i d (fire_at early 0 cs ctx)
        (reset_at early 0 cs) (fire_at late 1 cs ctx) (fire_early-Fits early late cs ctx h)
        (reset_early-Fits early late cs h) (fire_late-Fits early late cs ctx h)
  fire-Fits (after_all ts) (node f c a i d cs) ctx (all_fits h) =
      bind-Returns _ (fire_zip ts cs ctx) _ (fire_zip-Fits ts cs ctx h) (λ cs' k. all_fits k)
  fire-Fits (after_any ts) (node f c a i d cs) ctx (any_fits h) =
      bind-Returns _ (fire_zip ts cs ctx) _ (fire_zip-Fits ts cs ctx h) (λ cs' k. any_fits k)
  fire-Fits (after_each ts) (node f c a i d cs) ctx (each_fits h) =
      bind-Returns _ (fire_nth ts i cs ctx) _ (fire_nth-Fits ts i cs ctx h) (λ cs' k. each_fits k)
  fire-Fits (repeat t) (node f c a i d (fork s leaf)) ctx (repeat_fits h) =
      bind-Returns _ (fire t s ctx) _ (fire-Fits t s ctx h)
        (λ s' k. repeat_fits (refresh-Fits t s h))
  fire-Fits (or_finally main finally) (node f c a i d (fork s (fork u leaf))) ctx
        (or_finally_fits h k) =
      bind-Returns _ (should_fire finally u ctx) _ (should_fire-Fits finally u ctx k) (λ b b_h.
        finished_or-Fits main finally (fire main s ctx) f c a i d s u b k h
          (fire-Fits main s ctx h))

  fire_early-Fits :
      (early late : MaybeTrigger) (cs : NodeStates) (ctx : TriggerContext)
      → FitsTwo early late cs
      → Returns (FitsTwo early late) (fire_at early 0 cs ctx)
  fire_early-Fits _ _ _ ctx (two_fit absent_fits k) = two_fit absent_fits k
  fire_early-Fits _ _ _ ctx (two_fit {s = s} (present_fits {t} h) k) =
      bind-Returns _ (fire t s ctx) _ (fire-Fits t s ctx h) (λ s' h'. two_fit (present_fits h') k)

  fire_late-Fits :
      (early late : MaybeTrigger) (cs : NodeStates) (ctx : TriggerContext)
      → FitsTwo early late cs
      → Returns (FitsTwo early late) (fire_at late 1 cs ctx)
  fire_late-Fits _ _ _ ctx (two_fit h absent_fits) = two_fit h absent_fits
  fire_late-Fits _ _ _ ctx (two_fit {u = u} h (present_fits {t} k)) =
      bind-Returns _ (fire t u ctx) _ (fire-Fits t u ctx k) (λ u' k'. two_fit h (present_fits k'))

  fire_zip-Fits :
      (ts : Triggers) (cs : NodeStates) (ctx : TriggerContext)
      → FitsAll ts cs
      → Returns (FitsAll ts) (fire_zip ts cs ctx)
  fire_zip-Fits nil cs ctx h = h
  fire_zip-Fits (cons t ts) leaf ctx h = elim h [ ]
  fire_zip-Fits (cons t ts) (fork s cs) ctx (cons_fits h hs) =
      bind-Returns _ (fire t s ctx) _ (fire-Fits t s ctx h) (λ s' k.
        bind-Returns _ (fire_zip ts cs ctx) _ (fire_zip-Fits ts cs ctx hs)
          (λ cs' ks. cons_fits k ks))

  fire_nth-Fits :
      (ts : Triggers) (i : ℕ) (cs : NodeStates) (ctx : TriggerContext)
      → FitsAll ts cs
      → Returns (FitsAll ts) (fire_nth ts i cs ctx)
  fire_nth-Fits nil i cs ctx h = h
  fire_nth-Fits (cons t ts) i leaf ctx h = elim h [ ]
  fire_nth-Fits (cons t ts) zero (fork s cs) ctx (cons_fits h hs) =
      bind-Returns _ (fire t s ctx) _ (fire-Fits t s ctx h) (λ s' k. cons_fits k hs)
  fire_nth-Fits (cons t ts) (suc i) (fork s cs) ctx (cons_fits h hs) =
      bind-Returns _ (fire_nth ts i cs ctx) _ (fire_nth-Fits ts i cs ctx hs)
        (λ cs' ks. cons_fits h ks)
