-- ===== src/Watermark/History.antt =====
-- The histories of a `WatermarkManager` of flaredb/src/engine/watermark.rs: first stages are
-- registered and set up, then the dispatcher and the scheduler make any sequence of method calls.
pub mod Local
pub mod Graph
pub mod Reached
pub mod Start
use flare_db.Base.{ℕ, ◌≡◌, String, Bool, Option, none, List}
use flare_db.Base.Dict.{get}
use flare_db.Watermark.State.{
  Timestamp, StageId, PCollectionId, StageKind, StageState, WatermarkManager,
}
use flare_db.Watermark.Manager.{
  Result, ok, new, add_stage, set_stage_kind, set_required_watermark, set_max_in_flight,
  report_source_partition_watermark, set_source_partition_idle, report_source_finished,
  set_source_auto_finish, add_hold, release_hold, set_event_time_holds, set_residual_holds,
  enqueue_bundles, mark_rerun,
}
use flare_db.Watermark.Bundles.{start_bundle, complete_bundle_with_min_and_input}
use flare_db.Watermark.Refresh.{refresh, release_empty_input_holds}

-- What `from_executable_graph` and the scheduler's constructor do to a new manager.
pub data Built : WatermarkManager → Type 0 where
  empty : (n : WatermarkManager) → n ≡ new → Built n
  stage :
      (m n : WatermarkManager) (id : StageId) (main side outputs : List PCollectionId)
      → Built m
      → n ≡ add_stage m id main side outputs
      → Built n
  auto_finish :
      (m n : WatermarkManager) (id : StageId) (b : Bool)
      → Built m
      → set_source_auto_finish m id b ≡ ok n
      → Built n
  stage_kind :
      (m n : WatermarkManager) (id : StageId) (kind : StageKind)
      → Built m
      → set_stage_kind m id kind ≡ ok n
      → Built n
  required :
      (m n : WatermarkManager) (id : StageId) (t : Timestamp)
      → Built m
      → set_required_watermark m id t ≡ ok n
      → Built n
  ceiling :
      (m n : WatermarkManager) (id : StageId) (max : ℕ)
      → Built m
      → set_max_in_flight m id max ≡ ok n
      → Built n

-- One call of a method that runs while the job does.
pub data Step (m n : WatermarkManager) : Type 0 where
  report :
      (id : StageId) (partition : String) (t : Timestamp)
      → report_source_partition_watermark m id partition t ≡ ok n
      → Step m n
  idle :
      (id : StageId) (partition : String) (b : Bool)
      → set_source_partition_idle m id partition b ≡ ok n
      → Step m n
  finish : (id : StageId) → report_source_finished m id ≡ ok n → Step m n
  hold : (id : StageId) (t : Timestamp) → add_hold m id t ≡ ok n → Step m n
  release : (id : StageId) (t : Timestamp) → release_hold m id t ≡ ok n → Step m n
  timers : (holds : List (StageId × List Timestamp)) → n ≡ set_event_time_holds m holds → Step m n
  residuals : (holds : List (StageId × List Timestamp)) → n ≡ set_residual_holds m holds → Step m n
  enqueue : (id : StageId) (count : ℕ) → enqueue_bundles m id count ≡ ok n → Step m n
  rerun : (id : StageId) → mark_rerun m id ≡ ok n → Step m n
  start : (id : StageId) → start_bundle m id ≡ ok n → Step m n
  complete :
      (id : StageId) (min : Option Timestamp) (count : Option ℕ) (ready : List StageId)
      → (let result : Result (WatermarkManager × List StageId) = ok (n, ready) in
          complete_bundle_with_min_and_input m id min count ≡ result)
      → Step m n
  refreshed : n ≡ (refresh m).0 → Step m n
  quiesced : n ≡ (release_empty_input_holds m).0 → Step m n

pub data Reach : WatermarkManager → Type 0 where
  built : (m : WatermarkManager) → Built m → Reach m
  next : (m n : WatermarkManager) → Reach m → Step m n → Reach n
