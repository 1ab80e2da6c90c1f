-- ===== src/Watermark/History/Reached.antt =====
-- The invariants of every state that a history of flaredb/src/engine/watermark.rs reaches.
use flare_db.Base.{
  ℕ, ◌+◌, ◌≡◌, refl, sym, ap, subst, inl, inr, true, Bool-cases, Option, none, some, Option-cases,
  List, [], ltb, same_value,
}
use flare_db.Base.Dict.{get, modify, modify_all}
use flare_db.Watermark.State.{
  Timestamp, StageId, SourceState, StageState, WatermarkManager, is_none, hold_all, is_empty,
}
use flare_db.Watermark.Manager.{
  Error, Result, ok, err≢ok, ok_eq, stage_mut, source_mut, map_source, timestamps_of, hold_at,
  unhold_at, report_partition, mark_idle, mark_finished, report_source_partition_watermark,
  set_source_partition_idle, report_source_finished, add_hold, release_hold, set_event_time_holds,
  set_residual_holds, enqueue_bundles, mark_rerun,
}
use flare_db.Watermark.Bundles.{
  started, start_bundle, start_refusal, finish_one, finished, propagates_empty_input,
  propagated_min, complete_bundle_with_min_and_input,
}
use flare_db.Watermark.Bundles.Start.{start_bundle-inversion}
use flare_db.Watermark.Bundles.Loops.{wake_outputs_keeps}
use flare_db.Watermark.Bundles.PushWake.{complete_bundle-inversion}
use flare_db.Watermark.Refresh.{refresh, release_empty, count_empty, release_empty_input_holds}
use flare_db.Watermark.Refresh.Spec.{IsSound, refresh-IsSound}
use flare_db.Watermark.History.{Step}
use flare_db.Watermark.History.Local.{
  IsConsistent, IsAllConsistent, hold_at-IsConsistent, unhold_at-IsConsistent, started-IsConsistent,
  set_timers-IsConsistent, set_residuals-IsConsistent, finish_one-IsConsistent,
  wake_main-IsConsistent, wake_side-IsConsistent, release_empty-IsConsistent,
  modify-IsAllConsistent, modify_all-IsAllConsistent, refresh-IsAllConsistent,
}
use flare_db.Watermark.History.Graph.{
  SameWatermarks, SameWatermarks-refl, IsSameGraph-IsSound, modify-IsSameGraph,
  modify_all-IsSameGraph, wake_outputs-IsSameGraph,
}
use mathlib.Core.Option

-- Input watermarks do not run ahead of their upstream outputs, and every stage is consistent.
pub record IsWellFormed (m : WatermarkManager) : Type 0 where
  pub sound : IsSound m
  pub consistent : IsAllConsistent m

-- A change of one stage that keeps both.
record IsBenign (f : StageState → StageState) : Type 0 where
  same : (s : StageState) → SameWatermarks s (f s)
  keeps : (s : StageState) → IsConsistent s → IsConsistent (f s)

benign_modify :
    (id : StageId) (f : StageState → StageState) (m n : WatermarkManager)
    → IsBenign f
    → n ≡ record m { stage_map = modify id f m.stage_map }
    → IsWellFormed m
    → IsWellFormed n
benign_modify id f m n b e w = subst IsWellFormed (sym e) (record {
  sound = IsSameGraph-IsSound m _ (modify-IsSameGraph id f m b.same) w.sound;
  consistent = modify-IsAllConsistent id f m (λ s _. b.keeps s) w.consistent;
})

benign_modify_all :
    (f : StageId → StageState → StageState) (m : WatermarkManager)
    → ((id : StageId) → IsBenign (f id))
    → IsWellFormed m
    → IsWellFormed (record m { stage_map = modify_all f m.stage_map })
benign_modify_all f m b w = record {
  sound = IsSameGraph-IsSound m _ (modify_all-IsSameGraph f m (λ id. (b id).same)) w.sound;
  consistent = modify_all-IsAllConsistent f m (λ id. (b id).keeps) w.consistent;
}

pub stage_mut-inversion :
    (m n : WatermarkManager) (id : StageId) (f : StageState → StageState)
    → stage_mut m id f ≡ ok n
    → n ≡ record m { stage_map = modify id f m.stage_map }
unfolding stage_mut
stage_mut-inversion m n id f h = elim (Option-cases (get id m.stage_map)) [
  | inl e ↦ absurd (err≢ok (Error.unknown_stage id) n (rw (e, stage_mut) at h))
  | inr (s, e) ↦ sym (ok_eq _ n (rw (e, stage_mut) at h))
]

pub source_mut-inversion :
    (m n : WatermarkManager) (id : StageId) (f : SourceState → SourceState)
    → source_mut m id f ≡ ok n
    → n ≡ record m { stage_map = modify id (map_source f) m.stage_map }
unfolding source_mut
source_mut-inversion m n id f h = elim (Option-cases (get id m.stage_map)) [
  | inl e ↦ absurd (err≢ok (Error.unknown_stage id) n (rw (e, source_mut) at h))
  | inr (s, e) ↦ elim (Bool-cases (is_none s.source)) [
    | inl z ↦ absurd (err≢ok (Error.not_a_source id) n (rw (e, source_mut, z) at h))
    | inr z ↦ sym (ok_eq _ n (rw (e, source_mut, z) at h))
  ]
]

is_none-map :
    (f : SourceState → SourceState) (o : Option SourceState) → is_none (Option.map f o) ≡ is_none o
is_none-map f none = refl
is_none-map f (some s) = refl

map_source-IsBenign : (f : SourceState → SourceState) → IsBenign (map_source f)
map_source-IsBenign f = record {
  same = λ s. record {
    input = refl;
    output = refl;
    main_inputs = refl;
    side_inputs = refl;
    source = is_none-map f s.source;
  };
  keeps = λ s v. record {
    capacity = v.capacity;
    timer_holds = v.timer_holds;
    deferred_holds = v.deferred_holds;
  };
}

same_fields :
    (s t : StageState)
    → t.input ≡ s.input
    → t.output ≡ s.output
    → t.main_inputs ≡ s.main_inputs
    → t.side_inputs ≡ s.side_inputs
    → t.source ≡ s.source
    → SameWatermarks s t
same_fields s t i o a b c = record {
  input = i;
  output = o;
  main_inputs = a;
  side_inputs = b;
  source = ap is_none c;
}

hold_at-IsBenign : (t : Timestamp) → IsBenign (hold_at t)
hold_at-IsBenign t = record {
  same = λ s. same_fields s _ refl refl refl refl refl;
  keeps = hold_at-IsConsistent t;
}

unhold_at-IsBenign : (t : Timestamp) → IsBenign (unhold_at t)
unhold_at-IsBenign t = record {
  same = λ s. same_fields s _ refl refl refl refl refl;
  keeps = unhold_at-IsConsistent t;
}

enqueue-IsBenign : (count : ℕ) → IsBenign (λ s. record s { queued = s.queued + count })
enqueue-IsBenign count = record {
  same = λ s. same_fields s _ refl refl refl refl refl;
  keeps = λ s v. record {
    capacity = v.capacity;
    timer_holds = v.timer_holds;
    deferred_holds = v.deferred_holds;
  };
}

rerun-IsBenign : IsBenign (λ s. record s { rerun_pending = true })
rerun-IsBenign = record {
  same = λ s. same_fields s _ refl refl refl refl refl;
  keeps = λ s v. record {
    capacity = v.capacity;
    timer_holds = v.timer_holds;
    deferred_holds = v.deferred_holds;
  };
}

timers-IsBenign :
    (ts : List Timestamp) → IsBenign (λ s. record s { watermark_holds = hold_all ts [] })
timers-IsBenign ts = record {
  same = λ s. same_fields s _ refl refl refl refl refl;
  keeps = set_timers-IsConsistent ts;
}

residuals-IsBenign :
    (ts : List Timestamp) → IsBenign (λ s. record s { residual_holds = hold_all ts [] })
residuals-IsBenign ts = record {
  same = λ s. same_fields s _ refl refl refl refl refl;
  keeps = set_residuals-IsConsistent ts;
}

finish_one-IsBenign : IsBenign finish_one
finish_one-IsBenign = record {
  same = λ s. same_fields s _ refl refl refl refl refl;
  keeps = finish_one-IsConsistent;
}

release_empty-same : (s : StageState) → SameWatermarks s (release_empty s)
unfolding release_empty
release_empty-same s = elim (Bool-cases (is_empty s.pending_empty)) [
  | inl e ↦ rw (e, release_empty) (SameWatermarks-refl s)
  | inr e ↦ rw (e, release_empty) (same_fields s _ refl refl refl refl refl)
]

start-IsWellFormed :
    (m n : WatermarkManager) (id : StageId)
    → start_bundle m id ≡ ok n
    → IsWellFormed m
    → IsWellFormed n
unfolding started
start-IsWellFormed m n id h w =
    let (s, g, allowed, e) = start_bundle-inversion m n id h in
    subst IsWellFormed (sym e) (record {
      sound =
          IsSameGraph-IsSound m _
            (modify-IsSameGraph id started m (λ t. same_fields t _ refl refl refl refl refl))
            w.sound;
      consistent =
          modify-IsAllConsistent id started m
            (λ t k v.
              started-IsConsistent id t
                (subst (λ u. start_refusal id u ≡ none) (same_value _ s t g k) allowed) v)
            w.consistent;
    })

complete-IsWellFormed :
    (m n : WatermarkManager) (id : StageId) (min : Option Timestamp) (count : Option ℕ)
    (ready : List StageId)
    → (let result : Result (WatermarkManager × List StageId) = ok (n, ready) in
        complete_bundle_with_min_and_input m id min count ≡ result)
    → IsWellFormed m
    → IsWellFormed n
complete-IsWellFormed m n id min count ready h w =
    let (s, g, _, e) = complete_bundle-inversion m id min count n ready h in
    let first = finished m id in
    let empty = propagates_empty_input s min count in
    let low = propagated_min s min in
    let marked : IsWellFormed first.manager =
      benign_modify id finish_one m first.manager finish_one-IsBenign refl w in
    subst IsWellFormed (sym e) (record {
      sound =
          IsSameGraph-IsSound first.manager _ (wake_outputs-IsSameGraph empty low s.outputs first)
            marked.sound;
      consistent = λ c.
          wake_outputs_keeps IsConsistent c empty low s.outputs first
            (λ pc. wake_main-IsConsistent pc empty low) (λ pc. wake_side-IsConsistent pc empty)
            (marked.consistent c);
    })

refresh-IsWellFormed : (m : WatermarkManager) → IsWellFormed m → IsWellFormed (refresh m).0
refresh-IsWellFormed m w = record {
  sound = refresh-IsSound m w.sound;
  consistent = refresh-IsAllConsistent m w.consistent;
}

quiesced-IsWellFormed :
    (m : WatermarkManager) → IsWellFormed m → IsWellFormed (release_empty_input_holds m).0
unfolding release_empty_input_holds
quiesced-IsWellFormed m w =
    let cleared : WatermarkManager = record m {
      stage_map = modify_all (λ id. release_empty) m.stage_map;
    } in
    let kept : IsWellFormed cleared =
      benign_modify_all (λ id. release_empty) m
        (λ id. record { same = release_empty-same; keeps = release_empty-IsConsistent }) w in
    elim (Bool-cases (ltb 0 (count_empty m.stage_map))) [
      | inl e ↦ rw e (refresh-IsWellFormed cleared kept)
      | inr e ↦ rw e kept
    ]

-- Every call keeps the manager well formed.
pub Step-IsWellFormed : (m n : WatermarkManager) → Step m n → IsWellFormed m → IsWellFormed n
unfolding report_source_partition_watermark set_source_partition_idle report_source_finished
    add_hold release_hold set_event_time_holds set_residual_holds enqueue_bundles mark_rerun
Step-IsWellFormed m n (Step.report id partition t h) w =
    benign_modify id _ m n (map_source-IsBenign (report_partition partition t))
      (source_mut-inversion m n id (report_partition partition t) h) w
Step-IsWellFormed m n (Step.idle id partition b h) w =
    benign_modify id _ m n (map_source-IsBenign (mark_idle partition b))
      (source_mut-inversion m n id (mark_idle partition b) h) w
Step-IsWellFormed m n (Step.finish id h) w =
    benign_modify id _ m n (map_source-IsBenign mark_finished)
      (source_mut-inversion m n id mark_finished h) w
Step-IsWellFormed m n (Step.hold id t h) w =
    benign_modify id _ m n (hold_at-IsBenign t) (stage_mut-inversion m n id (hold_at t) h) w
Step-IsWellFormed m n (Step.release id t h) w =
    benign_modify id _ m n (unhold_at-IsBenign t) (stage_mut-inversion m n id (unhold_at t) h) w
Step-IsWellFormed m n (Step.timers holds h) w =
    subst IsWellFormed (sym h)
      (benign_modify_all _ m (λ id. timers-IsBenign (timestamps_of (get id holds))) w)
Step-IsWellFormed m n (Step.residuals holds h) w =
    subst IsWellFormed (sym h)
      (benign_modify_all _ m (λ id. residuals-IsBenign (timestamps_of (get id holds))) w)
Step-IsWellFormed m n (Step.enqueue id count h) w =
    benign_modify id _ m n (enqueue-IsBenign count) (stage_mut-inversion m n id _ h) w
Step-IsWellFormed m n (Step.rerun id h) w =
    benign_modify id _ m n rerun-IsBenign (stage_mut-inversion m n id _ h) w
Step-IsWellFormed m n (Step.start id h) w = start-IsWellFormed m n id h w
Step-IsWellFormed m n (Step.complete id min count ready h) w =
    complete-IsWellFormed m n id min count ready h w
Step-IsWellFormed m n (Step.refreshed h) w = subst IsWellFormed (sym h) (refresh-IsWellFormed m w)
Step-IsWellFormed m n (Step.quiesced h) w = subst IsWellFormed (sym h) (quiesced-IsWellFormed m w)
