-- ===== src/Scheduler/Poll.antt =====
-- What one call of `next_nodes` in flaredb/src/engine/scheduler.rs starts.
use flare_db.Base.{ℕ, ◌≡◌, refl, sym, ◌∙◌, true, false, subst, some, []}
use flare_db.Base.Dict.{get, keys}
use flare_db.Watermark.State.{StageId, StageState}
use flare_db.Watermark.Refresh.{refresh}
use flare_db.Watermark.Bundles.{stage_is_ready, filter_ready, ready_stages}
use flare_db.Scheduler.Graph.{ExecutableNode}
use flare_db.Scheduler.State.{NodeScheduler, next_nodes}
use flare_db.Scheduler.Ready.{
  AllDifferent, keys-refresh, contains-ready_stages, filter_ready-AllReady, sort-AllReady,
}
use flare_db.Scheduler.Waves.{node_of, waves, IsAdvanced, start_stages_each}

-- A poll first refreshes the watermarks. Then every ready stage of the graph gets one wave, which is
-- one bundle, or as many as its queue holds and its ceiling leaves room for, and the bundles of the
-- answer are those of these waves, in the order of the ready stages. A stage that is not ready is as
-- the refresh left it. The ids of the stages are different, as the keys of a map are.
pub next_nodes-IsExact :
    (s : NodeScheduler)
    → AllDifferent (keys s.watermarks.stage_map)
    → ((next_nodes s).0 ≡ waves s (refresh s.watermarks).0 (ready_stages (refresh s.watermarks).0))
      × ((id : StageId)
          → stage_is_ready (refresh s.watermarks).0 id ≡ false
          → get id (next_nodes s).1.watermarks.stage_map
            ≡ get id (refresh s.watermarks).0.stage_map)
      × ((id : StageId) (index : ℕ) (node : ExecutableNode) (before : StageState)
          → stage_is_ready (refresh s.watermarks).0 id ≡ true
          → node_of s id ≡ some (index, node)
          → get id (refresh s.watermarks).0.stage_map ≡ some before
          → IsAdvanced id before (next_nodes s).1.watermarks)
unfolding next_nodes ready_stages
next_nodes-IsExact s d =
    let m = (refresh s.watermarks).0 in
    let different = subst AllDifferent (sym (keys-refresh s.watermarks)) d in
    let each =
      start_stages_each s m (ready_stages m) (record { manager = m; next = [] })
        (sort-AllReady m (filter_ready m m.stage_map)
          (filter_ready-AllReady m m.stage_map different))
        (λ id c. refl) in
    (
      each.0,
      λ id r. each.1 id (contains-ready_stages m id ∙ r),
      λ id index node before r. each.2 id index node before (contains-ready_stages m id ∙ r),
    )
