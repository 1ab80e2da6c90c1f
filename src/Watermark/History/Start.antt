-- ===== src/Watermark/History/Start.antt =====
-- The managers that registration alone builds from flaredb/src/engine/watermark.rs.
use flare_db.Base.{
  ◌≡◌, refl, sym, subst, inl, inr, ◌⊎◌, ◌≤ℤ◌, true, false, Bool-cases, Option, none, some,
  Option-cases, List, [], ◌∷◌, min_ℤ, le-min_ℤ, some_eq, arith,
}
use flare_db.Base.Text.{str_eq}
use flare_db.Base.Dict.{get, get-put, modify}
use flare_db.Watermark.State.{
  Timestamp, StageId, PCollectionId, SourceState, StageState, WatermarkManager, is_source,
  max_timestamp, min_timestamp,
}
use flare_db.Watermark.Manager.{
  new, new_stage, add_stage, map_source, set_source_auto_finish, set_stage_kind,
  set_required_watermark, set_max_in_flight,
}
use flare_db.Watermark.Bundles.{producer_stage, all_inputs}
use flare_db.Watermark.Bundles.Loops.{At, modify_keeps}
use flare_db.Watermark.Refresh.{upstream, min_upstream, compute_input, refresh}
use flare_db.Watermark.Refresh.Spec.{IsSound, refresh-input}
use flare_db.Watermark.History.{Built, Reach}
use flare_db.Watermark.History.Reached.{
  IsWellFormed, stage_mut-inversion, source_mut-inversion, Step-IsWellFormed,
}

-- A stage that has not run.
record IsFresh (s : StageState) : Type 0 where
  output : s.output ≡ min_timestamp
  input : (is_source s ≡ true) × (s.input ≡ max_timestamp) ⊎ (s.input ≡ min_timestamp)
  idle : s.in_flight ≡ 0
  no_timers : s.watermark_holds ≡ []
  no_residuals : s.residual_holds ≡ []

abbrev IsAllFresh : WatermarkManager → Type 0
IsAllFresh m = (id : StageId) → At IsFresh id m

new_stage-IsFresh : (main side outputs : List PCollectionId) → IsFresh (new_stage main side outputs)
unfolding new_stage
new_stage-IsFresh [] side outputs = record {
  output = refl;
  input = inl (refl, refl);
  idle = refl;
  no_timers = refl;
  no_residuals = refl;
}
new_stage-IsFresh (x ∷ main) side outputs = record {
  output = refl;
  input = inr refl;
  idle = refl;
  no_timers = refl;
  no_residuals = refl;
}

add_stage-IsAllFresh :
    (m : WatermarkManager) (id : StageId) (main side outputs : List PCollectionId)
    → IsAllFresh m
    → IsAllFresh (add_stage m id main side outputs)
unfolding add_stage
add_stage-IsAllFresh m id main side outputs all j t h = elim (Bool-cases (str_eq id j)) [
  | inl e ↦
      let same : new_stage main side outputs ≡ t =
        some_eq _ t (rw (get-put id j (new_stage main side outputs) m.stage_map, e) at h) in
      subst IsFresh same (new_stage-IsFresh main side outputs)
  | inr e ↦ all j t (rw (get-put id j (new_stage main side outputs) m.stage_map, e) at h)
]

modify-IsAllFresh :
    (m n : WatermarkManager) (id : StageId) (f : StageState → StageState)
    → n ≡ record m { stage_map = modify id f m.stage_map }
    → ((s : StageState) → IsFresh s → IsFresh (f s))
    → IsAllFresh m
    → IsAllFresh n
modify-IsAllFresh m n id f e keep all =
    subst IsAllFresh (sym e) (λ c. modify_keeps IsFresh c id f m keep (all c))

map_source-IsFresh :
    (f : SourceState → SourceState) (s : StageState) → IsFresh s → IsFresh (map_source f s)
map_source-IsFresh f s v = record {
  output = v.output;
  input = by_source s.source refl v.input;
  idle = v.idle;
  no_timers = v.no_timers;
  no_residuals = v.no_residuals;
}
  where
    by_source :
        (o : Option SourceState)
        → s.source ≡ o
        → (is_source s ≡ true) × (s.input ≡ max_timestamp) ⊎ (s.input ≡ min_timestamp)
        → (is_source (map_source f s) ≡ true) × (s.input ≡ max_timestamp)
          ⊎ (s.input ≡ min_timestamp)
    by_source o e (inr k) = inr k
    by_source (some x) e (inl (a, k)) = inl (rw e, k)
    by_source none e (inl (a, k)) = absurd (let b : false ≡ true = rw e at a in cc)

Built-IsAllFresh : (m : WatermarkManager) → Built m → IsAllFresh m
unfolding new set_source_auto_finish set_stage_kind set_required_watermark set_max_in_flight
Built-IsAllFresh n (Built.empty _ e) = subst IsAllFresh (sym e) (λ id t h. absurd (nothing id t h))
  where
    nothing : (id : StageId) (t : StageState) → get id [] ≡ some t → ⊥
    nothing id t h = unfold get in cc
Built-IsAllFresh n (Built.stage m _ id main side outputs b e) =
    subst IsAllFresh (sym e) (add_stage-IsAllFresh m id main side outputs (Built-IsAllFresh m b))
Built-IsAllFresh n (Built.auto_finish m _ id x b h) =
    modify-IsAllFresh m n id _ (source_mut-inversion m n id _ h) (map_source-IsFresh _)
      (Built-IsAllFresh m b)
Built-IsAllFresh n (Built.stage_kind m _ id kind b h) =
    modify-IsAllFresh m n id _ (stage_mut-inversion m n id _ h)
      (λ s v. record {
        output = v.output;
        input = v.input;
        idle = v.idle;
        no_timers = v.no_timers;
        no_residuals = v.no_residuals;
      })
      (Built-IsAllFresh m b)
Built-IsAllFresh n (Built.required m _ id t b h) =
    modify-IsAllFresh m n id _ (stage_mut-inversion m n id _ h)
      (λ s v. record {
        output = v.output;
        input = v.input;
        idle = v.idle;
        no_timers = v.no_timers;
        no_residuals = v.no_residuals;
      })
      (Built-IsAllFresh m b)
Built-IsAllFresh n (Built.ceiling m _ id max b h) =
    modify-IsAllFresh m n id _ (stage_mut-inversion m n id _ h)
      (λ s v. record {
        output = v.output;
        input = v.input;
        idle = v.idle;
        no_timers = v.no_timers;
        no_residuals = v.no_residuals;
      })
      (Built-IsAllFresh m b)

fresh_upstream :
    (m : WatermarkManager) (i : PCollectionId) → IsAllFresh m → upstream m i ≡ min_timestamp
unfolding upstream
fresh_upstream m i all = elim (Option-cases (get i m.producers)) [
  | inl e ↦ rw (e, producer_stage)
  | inr (id, e) ↦ elim (Option-cases (get id m.stage_map)) [
    | inl g ↦ rw (e, producer_stage, g)
    | inr (s, g) ↦ rw (e, producer_stage, g) ((all id s g).output)
  ]
]

fresh_min_upstream :
    (m : WatermarkManager) (w : Timestamp) (is : List PCollectionId)
    → IsAllFresh m
    → min_timestamp ≤ℤ w
    → min_timestamp ≤ℤ min_upstream m w is
unfolding min_upstream
fresh_min_upstream m w [] all h = h
fresh_min_upstream m w (i ∷ is) all h =
    fresh_min_upstream m (min_ℤ w (upstream m i)) is all
      (le-min_ℤ w (upstream m i) min_timestamp h (rw (fresh_upstream m i all) (omega arith)))

fresh-IsSound : (m : WatermarkManager) → IsAllFresh m → IsSound m
unfolding compute_input
fresh-IsSound m all id s h = elim (all id s h).input [
  | inl (a, e) ↦ rw (a, e) (omega arith)
  | inr e ↦ elim (Bool-cases (is_source s)) [
    | inl a ↦ simp (a, e) (omega arith)
    | inr a ↦ simp (a, e) (fresh_min_upstream m max_timestamp (all_inputs s) all (omega arith))
  ]
]

Built-IsWellFormed : (m : WatermarkManager) → Built m → IsWellFormed m
Built-IsWellFormed m b =
    let all = Built-IsAllFresh m b in
    record {
      sound = fresh-IsSound m all;
      consistent = λ id s h.
          let v = all id s h in
          record {
            capacity = omega (arith, v.idle);
            timer_holds = rw v.no_timers tt;
            deferred_holds = rw v.no_residuals tt;
          };
    }

-- In every state of every history no input watermark runs ahead of its upstream outputs, no stage has
-- more bundles in flight than its ceiling allows, and the maps of holds are well formed.
pub Reach-IsWellFormed : (m : WatermarkManager) → Reach m → IsWellFormed m
Reach-IsWellFormed m (Reach.built _ b) = Built-IsWellFormed m b
Reach-IsWellFormed n (Reach.next m _ r s) = Step-IsWellFormed m n s (Reach-IsWellFormed m r)

-- In every reached state `refresh` sets the input watermark of every stage to exactly the minimum
-- over its upstream outputs, whatever the history was.
pub Reach-refresh_input :
    (m : WatermarkManager) (id : StageId) (t : StageState)
    → Reach m
    → get id (refresh m).0.stage_map ≡ some t
    → t.input ≡ compute_input (refresh m).0 t
Reach-refresh_input m id t r h = refresh-input m id t (Reach-IsWellFormed m r).sound h
