-- ===== src/Watermark/Tests.antt =====
-- Concrete managers for the methods of flaredb/src/engine/watermark.rs: a source "imp" feeds an
-- aggregation "gbk" through the PCollection "pc".
pub mod Stages
use flare_db.Base.{
  ℕ, ◌≡◌, refl, ℤ, pos, negsuc, String, Bool, true, false, Option, none, some, List, [], ◌∷◌, ◌≤ℤ◌,
  ◌<ℤ◌, if◌then◌else◌, min_ℤ, Option-cases, Bool-cases, arith,
}
use flare_db.Base.Text.{str_eq}
use flare_db.Base.Dict.{get, put, modify, keys}
use flare_db.Watermark.State
use flare_db.Watermark.State.{
  Timestamp, StageId, StageState, WatermarkManager, watermark_gated, max_timestamp,
}
use flare_db.Watermark.Manager.{
  Result, ok, err, new, new_stage, add_stage, stage_mut, source_mut, set_stage_kind,
  report_source_partition_watermark, add_hold, release_hold,
}
use flare_db.Watermark.Bundles
use flare_db.Watermark.Bundles.{
  start_bundle, complete_bundle_with_min_and_input, stage_is_ready, started,
}
use flare_db.Watermark.Refresh.{refresh, compute_input}
use flare_db.Watermark.Refresh.Fixpoint.{IsSettledStage, refresh-settles}
use flare_db.Watermark.Refresh.Monotone.{IsLater, Extends, refresh-Extends}
use flare_db.Watermark.Refresh.Idempotent.{refresh-refresh}
use flare_db.Watermark.History.{Built, Step, Reach}
use flare_db.Watermark.History.Reached.{IsWellFormed}
use flare_db.Watermark.History.Start.{Reach-IsWellFormed, Reach-refresh_input}

abbrev manager_of : Result WatermarkManager → WatermarkManager
manager_of (ok m) = m
manager_of (err e) = new

abbrev stage_of : Option StageState → StageState
stage_of none = new_stage [] [] []
stage_of (some s) = s

abbrev with_source : WatermarkManager
with_source = add_stage new "imp" [] [] ("pc" ∷ [])

abbrev with_both : WatermarkManager
with_both = add_stage with_source "gbk" ("pc" ∷ []) [] []

abbrev graph : WatermarkManager
graph = manager_of (set_stage_kind with_both "gbk" watermark_gated)

abbrev reported : WatermarkManager
reported = manager_of (report_source_partition_watermark graph "imp" "0" (pos 700))

abbrev refreshed : WatermarkManager
refreshed = (refresh reported).0

graph-Built : Built graph
unfolding set_stage_kind stage_mut get add_stage put new
graph-Built =
    Built.stage_kind with_both graph "gbk" watermark_gated
      (Built.stage with_source with_both "gbk" ("pc" ∷ []) [] []
        (Built.stage new with_source "imp" [] [] ("pc" ∷ []) (Built.empty new refl) refl) refl)
      refl

reported-Reach : Reach reported
unfolding report_source_partition_watermark source_mut set_stage_kind get add_stage put new modify
    stage_mut
reported-Reach =
    Reach.next graph reported (Reach.built graph graph-Built) (Step.report "imp" "0" (pos 700) refl)

Reach-IsWellFormed_example : IsWellFormed reported
Reach-IsWellFormed_example = Reach-IsWellFormed reported reported-Reach

abbrev gbk_reported : StageState
gbk_reported = stage_of (get "gbk" reported.stage_map)

gbk_present : get "gbk" reported.stage_map ≡ some gbk_reported
unfolding report_source_partition_watermark source_mut set_stage_kind get add_stage put new modify
    stage_mut
gbk_present = refl

-- `refresh` keeps the stage.
gbk_later : (t : StageState) × (get "gbk" refreshed.stage_map ≡ some t) × IsLater gbk_reported t
gbk_later = (refresh-Extends reported).stages "gbk" gbk_reported gbk_present

Reach-refresh_input_example : gbk_later.0.input ≡ compute_input refreshed gbk_later.0
Reach-refresh_input_example =
    Reach-refresh_input reported "gbk" gbk_later.0 reported-Reach gbk_later.1

refresh-settles_example : IsSettledStage refreshed gbk_later.0
refresh-settles_example = refresh-settles reported "gbk" gbk_later.0 gbk_later.1

refresh-Extends_example : Extends reported refreshed
refresh-Extends_example = refresh-Extends reported

refresh-refresh_example : refresh refreshed ≡ (refreshed, [])
refresh-refresh_example = refresh-refresh reported
