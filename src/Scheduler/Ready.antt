-- ===== src/Scheduler/Ready.antt =====
-- The ready stages in flaredb/src/engine/watermark.rs, of which no one stands twice.
use flare_db.Base.{
  ℕ, zero, suc, ◌≡◌, refl, sym, ap, ◌∙◌, inl, inr, Bool, true, false, ◌||◌, ◌&&◌, true≢false,
  Bool-cases, Option-cases, List, [], ◌∷◌, arith,
}
use flare_db.Base.Text.{
  str_eq, str_eq→eq, str_eq_refl, contains, str_le, insert_sorted, sort, contains-insert_sorted,
  contains-sort,
}
use flare_db.Base.Dict.{get, keys, keys-modify, contains-keys}
use flare_db.Watermark.State.{StageId, StageState, WatermarkManager}
use flare_db.Watermark.Manager.{stages}
use flare_db.Watermark.Refresh.{
  Pass, refresh, refresh_one, refresh_pass, refresh_loop, total_gap, first_pass,
}
use flare_db.Watermark.Bundles.{stage_is_ready, filter_ready, ready_stages}
use flare_db.Watermark.Bundles.Start.{ready-present}

-- No id stands twice.
unfoldable pub AllDifferent : List StageId → Type 0
AllDifferent [] = Unit {0}
AllDifferent (id ∷ ids) = (contains ids id ≡ false) × AllDifferent ids

-- Different stages, all of them ready.
unfoldable pub AllReady : WatermarkManager → List StageId → Type 0
AllReady m [] = Unit {0}
AllReady m (id ∷ ids) = (contains ids id ≡ false) × (stage_is_ready m id ≡ true) × AllReady m ids

keys-refresh_one :
    (id : StageId) (p : Pass) → keys (refresh_one id p).manager.stage_map ≡ keys p.manager.stage_map
unfolding refresh_one
keys-refresh_one id p = elim (Option-cases (get id p.manager.stage_map)) [
  | inl e ↦ rw (e, refresh_one) refl
  | inr (s, e) ↦ rw (e, refresh_one) (keys-modify id _ p.manager.stage_map)
]

keys-refresh_pass :
    (ids : List StageId) (p : Pass)
    → keys (refresh_pass ids p).manager.stage_map ≡ keys p.manager.stage_map
unfolding refresh_pass
keys-refresh_pass [] p = refl
keys-refresh_pass (id ∷ ids) p = keys-refresh_pass ids (refresh_one id p) ∙ keys-refresh_one id p

keys-refresh_loop :
    (fuel : ℕ) (ids : List StageId) (p : Pass)
    → keys (refresh_loop fuel ids p).manager.stage_map ≡ keys p.manager.stage_map
unfolding refresh_loop
keys-refresh_loop zero ids p = refl
keys-refresh_loop (suc fuel) ids p =
    let q = record p { changed = false } in
    let step : keys (refresh_pass ids q).manager.stage_map ≡ keys p.manager.stage_map =
      keys-refresh_pass ids q in
    elim (Bool-cases (refresh_pass ids q).changed) [
      | inl e ↦ rw (e, refresh_loop) (keys-refresh_loop fuel ids (refresh_pass ids q) ∙ step)
      | inr e ↦ rw (e, refresh_loop) step
    ]

pub keys-refresh : (m : WatermarkManager) → keys (refresh m).0.stage_map ≡ keys m.stage_map
unfolding refresh
keys-refresh m = keys-refresh_loop (suc (total_gap m.stage_map)) (stages m) (first_pass m)

contains-filter_ready :
    (m : WatermarkManager) (xs : List (StageId × StageState)) (id : StageId)
    → contains (filter_ready m xs) id ≡ (contains (keys xs) id && stage_is_ready m id)
unfolding filter_ready keys contains
contains-filter_ready m [] id = refl
contains-filter_ready m ((j, t) ∷ xs) id = elim (Bool-cases (stage_is_ready m j)) [
  | inl r ↦ rw r (
      ready_first (str_eq j id) _ (contains (keys xs) id) (stage_is_ready m id)
        (λ e. ap (stage_is_ready m) (sym (str_eq→eq j id e)) ∙ r) (contains-filter_ready m xs id))
  | inr r ↦ rw r (
      unready_first (str_eq j id) _ (contains (keys xs) id) (stage_is_ready m id)
        (λ e. ap (stage_is_ready m) (sym (str_eq→eq j id e)) ∙ r) (contains-filter_ready m xs id))
]
  where
    ready_first :
        (e l k r : Bool) → (e ≡ true → r ≡ true) → l ≡ (k && r) → (e || l) ≡ ((e || k) && r)
    ready_first true l k r h p = sym (h refl)
    ready_first false l k r h p = p

    unready_first : (e l k r : Bool) → (e ≡ true → r ≡ false) → l ≡ (k && r) → l ≡ ((e || k) && r)
    unready_first true l k true h p = absurd (true≢false true refl (h refl))
    unready_first true l true false h p = p
    unready_first true l false false h p = p
    unready_first false l k r h p = p

-- The ready stages are those that `stage_is_ready` is true of.
pub contains-ready_stages :
    (m : WatermarkManager) (id : StageId) → contains (ready_stages m) id ≡ stage_is_ready m id
unfolding ready_stages
contains-ready_stages m id =
    contains-sort id (filter_ready m m.stage_map)
    ∙ contains-filter_ready m m.stage_map id
    ∙ present (contains (keys m.stage_map) id) (stage_is_ready m id)
        (λ r. let (state, g, h) = ready-present m id r in contains-keys id m.stage_map state g)
  where
    present : (k r : Bool) → (r ≡ true → k ≡ true) → (k && r) ≡ r
    present true true h = refl
    present true false h = refl
    present false true h = h refl
    present false false h = refl

pub filter_ready-AllReady :
    (m : WatermarkManager) (xs : List (StageId × StageState))
    → AllDifferent (keys xs)
    → AllReady m (filter_ready m xs)
unfolding filter_ready keys AllDifferent AllReady
filter_ready-AllReady m [] d = tt
filter_ready-AllReady m ((j, t) ∷ xs) (new, d) = elim (Bool-cases (stage_is_ready m j)) [
  | inl r ↦ rw r (contains-filter_ready m xs j ∙ rw new refl, r, filter_ready-AllReady m xs d)
  | inr r ↦ rw r (filter_ready-AllReady m xs d)
]

insert_sorted-AllReady :
    (m : WatermarkManager) (a : StageId) (xs : List StageId)
    → contains xs a ≡ false
    → stage_is_ready m a ≡ true
    → AllReady m xs
    → AllReady m (insert_sorted a xs)
unfolding insert_sorted contains AllReady
insert_sorted-AllReady m a [] new now r = (refl, now, tt)
insert_sorted-AllReady m a (x ∷ xs) new now (x_new, x_now, r) = elim (Bool-cases (str_le a x)) [
  | inl e ↦ rw e (new, now, (x_new, x_now, r))
  | inr e ↦
      let (x_a, out) = or_neither (str_eq x a) (contains xs a) new in
      rw e (
        contains-insert_sorted a x xs ∙ rw x_new (apart x_a),
        x_now,
        insert_sorted-AllReady m a xs out now r,
      )
]
  where
    apart : str_eq x a ≡ false → (str_eq a x || false) ≡ false
    apart h = elim (Bool-cases (str_eq a x)) [
      | inl e ↦ absurd (true≢false (str_eq x a) (ap (str_eq x) (str_eq→eq a x e) ∙ str_eq_refl x) h)
      | inr e ↦ rw e refl
    ]

    or_neither : (a b : Bool) → (a || b) ≡ false → (a ≡ false) × (b ≡ false)
    or_neither a b h = ground arith

pub sort-AllReady :
    (m : WatermarkManager) (xs : List StageId) → AllReady m xs → AllReady m (sort xs)
unfolding sort AllReady
sort-AllReady m [] r = tt
sort-AllReady m (x ∷ xs) (new, now, r) =
    insert_sorted-AllReady m x (sort xs) (contains-sort x xs ∙ new) now (sort-AllReady m xs r)
