-- ===== src/Watermark/Tests/Stages.antt =====
-- Concrete stages and calls for flaredb/src/engine/watermark.rs.
use flare_db.Base.{
  ℕ, ◌≡◌, ◌≤◌, ◌↔◌, refl, pos, negsuc, String, true, false, none, some, List, [], ◌∷◌, ◌≤ℤ◌, ◌<ℤ◌,
  if◌then◌else◌, min_ℤ, Bool-cases, arith, length, some_eq, inl, inr, ◌⊎◌,
}
use flare_db.Base.Text.{str_eq, str_eq→eq, contains}
use flare_db.Base.Dict.{get, put, modify}
use flare_db.Watermark.State.{
  StageId, PCollectionId, StageState, SourceState, default_source, WatermarkManager,
  is_ready_without_upstream_barrier, max_timestamp, hold_add, min_hold, first_key, source_output,
  has_work, kind_gate, is_ordinary,
}
use flare_db.Watermark.Manager.{
  collect_set, Result, ok, err, ◌>>=◌, new, new_stage, add_stage, set_stage_kind, report_partition,
  report_source_partition_watermark, add_hold, release_hold, stage_mut, source_mut,
}
use flare_db.Watermark.Bundles.{
  producer_is_quiescent, all_inputs, propagated_min, start_bundle,
  complete_bundle_with_min_and_input, stage_is_ready, started, validate_bundle_input_watermark,
}
use flare_db.Watermark.Bundles.Start.{stage_is_ready-start_bundle}
use flare_db.Watermark.Bundles.Quiescence.{IsRanked, Upstream, stage_is_ready-Upstream}
use flare_db.Watermark.Bundles.Validate.{IsWithinHolds, validate-IsWithinHolds}
use flare_db.Watermark.Bundles.PushWake.{IsWoken, complete_bundle-IsWoken}
use flare_db.Watermark.Refresh.{refresh}
use flare_db.Watermark.Refresh.Monotone.{IsLater, refresh-Extends}
use flare_db.Watermark.Refresh.Holds.{IsHeldAt, refresh-output_held}
use flare_db.Watermark.HoldMap.{IsHoldMap}
use flare_db.Watermark.HoldMap.Methods.{
  all_holds, release_hold-add_hold, IsMinimum, min_hold-IsMinimum,
}
use flare_db.Watermark.Sources.{IsBelowActive, HasActive, source_output-active, report_before_epoch}
use flare_db.Watermark.Tests.{manager_of, stage_of, graph, reported}

abbrev held : WatermarkManager
held = manager_of (add_hold reported "gbk" (pos 100))

abbrev gbk_held : StageState
gbk_held = stage_of (get "gbk" held.stage_map)

held_present : get "gbk" held.stage_map ≡ some gbk_held
unfolding add_hold report_source_partition_watermark source_mut set_stage_kind get add_stage put new
    modify stage_mut
held_present = refl

gbk_IsHeldAt : IsHeldAt gbk_held (pos 100)
unfolding add_hold report_source_partition_watermark source_mut set_stage_kind get add_stage put new
    modify stage_mut new_stage hold_add min_hold first_key
gbk_IsHeldAt = IsHeldAt.by_hold refl

output_early : gbk_held.output ≤ℤ pos 100
unfolding add_hold report_source_partition_watermark source_mut set_stage_kind get add_stage put new
    modify stage_mut new_stage
output_early = omega arith

held_later : (t : StageState) × (get "gbk" (refresh held).0.stage_map ≡ some t) × IsLater gbk_held t
held_later = (refresh-Extends held).stages "gbk" gbk_held held_present

refresh-output_held_example : held_later.0.output ≤ℤ pos 100
refresh-output_held_example =
    refresh-output_held held "gbk" gbk_held held_later.0 (pos 100) held_present gbk_IsHeldAt
      output_early held_later.1

imp_ready : stage_is_ready graph "imp" ≡ true
unfolding stage_is_ready set_stage_kind stage_mut get add_stage put new modify
    is_ready_without_upstream_barrier has_work kind_gate new_stage collect_set
imp_ready = refl

stage_is_ready-start_bundle_example :
    start_bundle graph "imp"
    ≡ ok (record graph { stage_map = modify "imp" started graph.stage_map })
stage_is_ready-start_bundle_example = stage_is_ready-start_bundle graph "imp" imp_ready

abbrev gbk : StageState
gbk = stage_of (get "gbk" graph.stage_map)

gbk_present : get "gbk" graph.stage_map ≡ some gbk
unfolding set_stage_kind stage_mut get add_stage put new modify
gbk_present = refl

no_holds : IsHoldMap gbk.watermark_holds
unfolding set_stage_kind stage_mut get add_stage put new modify new_stage
no_holds = tt

release_hold-add_hold_example :
    (add_hold graph "gbk" (pos 100) >>= λ n. release_hold n "gbk" (pos 100)) ≡ ok graph
release_hold-add_hold_example = release_hold-add_hold graph "gbk" (pos 100) gbk gbk_present no_holds

validate-IsWithinHolds_example :
    (validate_bundle_input_watermark graph "gbk" (pos 5) ≡ none)
    ↔ IsWithinHolds graph (pos 5) (all_inputs gbk)
validate-IsWithinHolds_example = validate-IsWithinHolds graph "gbk" gbk (pos 5) gbk_present

-- A timer at 100 and deferred work at 50.
abbrev twice_held : StageState
twice_held = record (new_stage ("pc" ∷ []) [] []) {
  watermark_holds = (pos 100, 1) ∷ (pos 300, 2) ∷ [];
  residual_holds = (pos 50, 1) ∷ [];
}

timers_IsHoldMap : IsHoldMap twice_held.watermark_holds
timers_IsHoldMap = ground arith

residuals_IsHoldMap : IsHoldMap twice_held.residual_holds
residuals_IsHoldMap = ground arith

min_hold-IsMinimum_example : IsMinimum (all_holds twice_held) (min_hold twice_held)
min_hold-IsMinimum_example = min_hold-IsMinimum twice_held timers_IsHoldMap residuals_IsHoldMap

held_test : min_hold twice_held ≡ some (pos 50)
unfolding min_hold first_key min_ℤ
held_test = refl

-- Without deferred work the timers alone hold the stage.
timer_held_test : min_hold (record twice_held { residual_holds = [] }) ≡ some (pos 100)
unfolding min_hold first_key min_ℤ
timer_held_test = refl

abbrev two_partitions : SourceState
two_partitions = record default_source {
  partitions =
      ("0", record { watermark = pos 700; idle = false })
      ∷ ("1", record { watermark = pos 200; idle = true })
      ∷ [];
}

source_output-active_example :
    IsBelowActive (source_output two_partitions) two_partitions.partitions
    × ((source_output two_partitions ≡ max_timestamp)
        ⊎ HasActive (source_output two_partitions) two_partitions.partitions)
source_output-active_example = source_output-active two_partitions refl (λ h. cc)

report_before_epoch_example :
    (source_output (report_partition "0" (negsuc 4) default_source) ≡ pos 0)
    × (negsuc 4 <ℤ source_output (report_partition "0" (negsuc 4) default_source))
report_before_epoch_example =
    report_before_epoch default_source "0" (negsuc 4) refl refl (omega arith)

-- "imp" is running.
abbrev running : WatermarkManager
running = manager_of (start_bundle graph "imp")

abbrev result_of : Result (WatermarkManager × List StageId) → WatermarkManager × List StageId
result_of (ok r) = r
result_of (err e) = (new, [])

abbrev completed : WatermarkManager × List StageId
completed = result_of (complete_bundle_with_min_and_input running "imp" (some (pos 40)) (some 3))

abbrev imp : StageState
imp = stage_of (get "imp" running.stage_map)

completes :
    complete_bundle_with_min_and_input running "imp" (some (pos 40)) (some 3)
    ≡ ok (completed.0, completed.1)
unfolding complete_bundle_with_min_and_input start_bundle set_stage_kind stage_mut get add_stage put
    new modify collect_set started
completes = refl

imp_present : get "imp" running.stage_map ≡ some imp
unfolding start_bundle set_stage_kind stage_mut get add_stage put new modify collect_set
imp_present = refl

abbrev gbk_woken : StageState
gbk_woken = stage_of (get "gbk" completed.0.stage_map)

woken_present : get "gbk" completed.0.stage_map ≡ some gbk_woken
unfolding complete_bundle_with_min_and_input start_bundle set_stage_kind stage_mut get add_stage put
    new modify collect_set started contains
woken_present = refl

imp_outputs : contains imp.outputs "pc" ≡ true
unfolding start_bundle set_stage_kind stage_mut get add_stage put new modify new_stage contains
    collect_set started
imp_outputs = refl

pc_consumers : get "pc" running.consumers ≡ some ("gbk" ∷ [])
unfolding start_bundle set_stage_kind stage_mut get add_stage put new modify new_stage contains
    collect_set
pc_consumers = refl

gbk_consumes : contains ("gbk" ∷ []) "gbk" ≡ true
unfolding contains
gbk_consumes = refl

complete_bundle-IsWoken_example : IsWoken "pc" (propagated_min imp (some (pos 40))) gbk_woken
complete_bundle-IsWoken_example =
    complete_bundle-IsWoken running completed.0 "imp" "gbk" "pc" (some (pos 40)) (some 3)
      completed.1 ("gbk" ∷ []) imp gbk_woken completes imp_present imp_outputs pc_consumers
      gbk_consumes woken_present

-- The source has rank 0 and the aggregation 1.
abbrev rank_of : StageId → ℕ
rank_of id = if str_eq "imp" id then 0 else 1

imp_has_no_input :
    (s : StageState) (i : PCollectionId)
    → get "imp" graph.stage_map ≡ some s
    → contains (all_inputs s) i ≡ true
    → ⊥
unfolding set_stage_kind stage_mut get add_stage put new modify new_stage contains
imp_has_no_input s i g c =
    let s_eq : new_stage [] [] ("pc" ∷ []) ≡ s = some_eq _ _ g in
    let none_held : false ≡ true = rw (← s_eq) at c in cc

pc_producer : (i producer : String) → get i graph.producers ≡ some producer → "imp" ≡ producer
unfolding set_stage_kind stage_mut get add_stage put new modify
pc_producer i producer p = elim (Bool-cases (str_eq "pc" i)) [
  | inl e ↦ let found : some "imp" ≡ some producer = rw (e) at p in some_eq _ _ found
  | inr e ↦ let missing : none ≡ some producer = rw (e) at p in cc
]

graph-IsRanked : IsRanked rank_of graph
graph-IsRanked id producer s i g c p = elim (Bool-cases (str_eq "imp" id)) [
  | inl e ↦ absurd (imp_has_no_input s i (rw (← str_eq→eq "imp" id e) at g) c)
  | inr e ↦ rw (← pc_producer i producer p, e) (omega arith)
]

gbk_low : rank_of "gbk" ≤ length graph.stage_map
unfolding set_stage_kind stage_mut get add_stage put new modify new_stage
gbk_low = omega arith

gbk_gated : is_ordinary gbk.kind ≡ false
unfolding set_stage_kind stage_mut get add_stage put new modify
gbk_gated = refl

stage_is_ready-Upstream_example : (stage_is_ready graph "gbk" ≡ true) ↔ (
    (is_ready_without_upstream_barrier gbk ≡ true)
    × ((t : StageState) → Upstream graph t gbk → producer_is_quiescent t ≡ true))
stage_is_ready-Upstream_example =
    stage_is_ready-Upstream rank_of graph "gbk" gbk graph-IsRanked gbk_low gbk_present gbk_gated
