-- ===== src/Watermark/Bundles/Start.antt =====
-- Readiness against `start_bundle` in flaredb/src/engine/watermark.rs.
use flare_db.Base.{
  ◌<◌, ◌≡◌, inl, inr, true, false, Bool-cases, none, some, Option-cases, [], ltb_ℤ, min_ℤ,
  min_ℤ_left, arith,
}
use flare_db.Base.Dict.{get, modify}
use flare_db.Watermark.State.{
  Timestamp, StageId, StageState, WatermarkManager, is_ready_without_upstream_barrier,
}
use flare_db.Watermark.Manager.{Error, ok, err}
use flare_db.Watermark.Bundles.{stage_is_ready, start_refusal, started, start_bundle}

ltb_ℤ-min :
    (last input pending : Timestamp)
    → ltb_ℤ last (min_ℤ input pending) ≡ true
    → ltb_ℤ last input ≡ true
ltb_ℤ-min last input pending h = ground (arith, min_ℤ_left input pending)

-- A ready stage passes every check of `start_bundle`.
pub ready-not_refused :
    (id : StageId) (s : StageState)
    → is_ready_without_upstream_barrier s ≡ true
    → start_refusal id s ≡ none
unfolding is_ready_without_upstream_barrier start_refusal
ready-not_refused id s h = ground (arith, ltb_ℤ-min s.watermark_at_last_run s.input s.pending_min)

pub ready-present :
    (m : WatermarkManager) (id : StageId)
    → stage_is_ready m id ≡ true
    → (s : StageState) × (get id m.stage_map ≡ some s)
      × (is_ready_without_upstream_barrier s ≡ true)
unfolding stage_is_ready
ready-present m id h = elim (Option-cases (get id m.stage_map)) [
  | inl e ↦ let no_stage : false ≡ true = rw (e, stage_is_ready) at h in cc
  | inr (s, e) ↦ elim (Bool-cases (is_ready_without_upstream_barrier s)) [
    | inl r ↦ (s, e, r)
    | inr r ↦ let not_ready : false ≡ true = rw (e, stage_is_ready, r) at h in cc
  ]
]

pub start_bundle_ok :
    (m : WatermarkManager) (id : StageId) (s : StageState)
    → get id m.stage_map ≡ some s
    → start_refusal id s ≡ none
    → start_bundle m id ≡ ok (record m { stage_map = modify id started m.stage_map })
unfolding start_bundle
start_bundle_ok m id s g h = rw (g, start_bundle, h)

-- A stage that `ready_stages` lists can be started: `start_bundle` makes no error for it.
pub stage_is_ready-start_bundle :
    (m : WatermarkManager) (id : StageId)
    → stage_is_ready m id ≡ true
    → start_bundle m id ≡ ok (record m { stage_map = modify id started m.stage_map })
stage_is_ready-start_bundle m id h =
    let (s, g, r) = ready-present m id h in start_bundle_ok m id s g (ready-not_refused id s r)

-- What `start_bundle` demands of a stage that it starts.
pub record CanStart (s : StageState) : Type 0 where
  pub has_room : s.in_flight < s.max_in_flight
  pub inputs_produced : s.unproduced ≡ []
  pub first_run_alone : s.completed ≡ false → 0 < s.in_flight → 0 < s.queued

pub started-CanStart : (id : StageId) (s : StageState) → start_refusal id s ≡ none → CanStart s
unfolding start_refusal
started-CanStart id s h = record {
  has_room = ground arith;
  inputs_produced = ground arith;
  first_run_alone = ground arith;
}

-- A success of `start_bundle`, taken apart.
pub start_bundle-inversion :
    (m n : WatermarkManager) (id : StageId)
    → start_bundle m id ≡ ok n
    → (s : StageState) × (get id m.stage_map ≡ some s)
      × (start_refusal id s ≡ none)
      × (n ≡ record m { stage_map = modify id started m.stage_map })
unfolding start_bundle
start_bundle-inversion m n id h = elim (Option-cases (get id m.stage_map)) [
  | inl e ↦ let failed : err (Error.unknown_stage id) ≡ ok n = rw (e, start_bundle) at h in cc
  | inr (s, e) ↦ elim (Option-cases (start_refusal id s)) [
    | inl r ↦
        let done : ok (record m { stage_map = modify id started m.stage_map }) ≡ ok n =
          rw (e, start_bundle, r) at h in
        (s, e, r, cc)
    | inr (x, r) ↦ let failed : err x ≡ ok n = rw (e, start_bundle, r) at h in cc
  ]
]
