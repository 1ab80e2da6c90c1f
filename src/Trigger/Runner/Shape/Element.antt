-- ===== src/Trigger/Runner/Shape/Element.antt =====
-- `element` of flaredb/src/engine/trigger.rs on a state that mirrors its trigger.
use flare_db.Base.{ℤ, if◌then◌else◌}
use flare_db.Trigger.Syntax.{
  Trigger, MaybeTrigger, Triggers, after_processing_time, after_watermark, after_all, after_any,
  after_each, repeat, or_finally, nil, cons,
}
use flare_db.Trigger.Runner.{
  NodeState, NodeStates, node, leaf, fork, child, set_child, arrived, element, element_at,
  element_zip,
}
use flare_db.Trigger.Runner.Moderate.{IsModerate, arrived-IsModerateTime, moderate_sum}
use flare_db.Trigger.Runner.Shape.{
  Fits, default_fits, never_fits, always_fits, count_fits, time_fits, synchronized_fits,
  watermark_fits, all_fits, any_fits, each_fits, repeat_fits, or_finally_fits, absent_fits,
  present_fits, FitsTwo, two_fit, FitsAll, nil_fits, cons_fits, Returns, bind-Returns, if-Returns,
  watermark_bind,
}

mutual
  unfolding element child set_child

  pub element-Fits :
      (t : Trigger) (s : NodeState) (now : ℤ)
      → IsModerate now
      → Fits t s
      → Returns (Fits t) (element t s now)
  element-Fits _ s now m default_fits = default_fits
  element-Fits _ s now m never_fits = never_fits
  element-Fits _ s now m always_fits = always_fits
  element-Fits _ (node f c a i d cs) now m count_fits = count_fits
  element-Fits (after_processing_time n) (node f c a i d cs) now m (time_fits h k l) =
      let k' = arrived-IsModerateTime a now m k in
      time_fits h k' (moderate_sum (arrived a now) n k' h)
  element-Fits _ s now m synchronized_fits = synchronized_fits
  element-Fits (after_watermark early late) (node f c a i d cs) now m (watermark_fits h) =
      watermark_bind early late (if f then element_at late 1 cs now else element_at early 0 cs now)
        f c a i d
        (if-Returns (FitsTwo early late) f (element_at late 1 cs now) (element_at early 0 cs now)
          (element_late-Fits early late cs now m h) (element_early-Fits early late cs now m h))
  element-Fits (after_all ts) (node f c a i d cs) now m (all_fits h) =
      bind-Returns _ (element_zip ts cs now) _ (element_zip-Fits ts cs now m h)
        (λ cs' k. all_fits k)
  element-Fits (after_any ts) (node f c a i d cs) now m (any_fits h) =
      bind-Returns _ (element_zip ts cs now) _ (element_zip-Fits ts cs now m h)
        (λ cs' k. any_fits k)
  element-Fits (after_each ts) (node f c a i d cs) now m (each_fits h) =
      bind-Returns _ (element_zip ts cs now) _ (element_zip-Fits ts cs now m h)
        (λ cs' k. each_fits k)
  element-Fits (repeat t) (node f c a i d (fork s leaf)) now m (repeat_fits h) =
      bind-Returns _ (element t s now) _ (element-Fits t s now m h) (λ s' k. repeat_fits k)
  element-Fits (or_finally main finally) (node f c a i d (fork s (fork u leaf))) now m
        (or_finally_fits h k) =
      bind-Returns _ (element main s now) _ (element-Fits main s now m h) (λ s' h'.
        bind-Returns _ (element finally u now) _ (element-Fits finally u now m k)
          (λ u' k'. or_finally_fits h' k'))

  element_early-Fits :
      (early late : MaybeTrigger) (cs : NodeStates) (now : ℤ)
      → IsModerate now
      → FitsTwo early late cs
      → Returns (FitsTwo early late) (element_at early 0 cs now)
  element_early-Fits _ _ _ now m (two_fit absent_fits k) = two_fit absent_fits k
  element_early-Fits _ _ _ now m (two_fit {s = s} (present_fits {t} h) k) =
      bind-Returns _ (element t s now) _ (element-Fits t s now m h)
        (λ s' h'. two_fit (present_fits h') k)

  element_late-Fits :
      (early late : MaybeTrigger) (cs : NodeStates) (now : ℤ)
      → IsModerate now
      → FitsTwo early late cs
      → Returns (FitsTwo early late) (element_at late 1 cs now)
  element_late-Fits _ _ _ now m (two_fit h absent_fits) = two_fit h absent_fits
  element_late-Fits _ _ _ now m (two_fit {u = u} h (present_fits {t} k)) =
      bind-Returns _ (element t u now) _ (element-Fits t u now m k)
        (λ u' k'. two_fit h (present_fits k'))

  element_zip-Fits :
      (ts : Triggers) (cs : NodeStates) (now : ℤ)
      → IsModerate now
      → FitsAll ts cs
      → Returns (FitsAll ts) (element_zip ts cs now)
  element_zip-Fits nil leaf now m nil_fits = nil_fits
  element_zip-Fits nil (fork s cs) now m h = elim h [ ]
  element_zip-Fits (cons t ts) leaf now m h = elim h [ ]
  element_zip-Fits (cons t ts) (fork s cs) now m (cons_fits h hs) =
      bind-Returns _ (element t s now) _ (element-Fits t s now m h) (λ s' k.
        bind-Returns _ (element_zip ts cs now) _ (element_zip-Fits ts cs now m hs)
          (λ cs' ks. cons_fits k ks))
