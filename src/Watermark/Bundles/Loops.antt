-- ===== src/Watermark/Bundles/Loops.antt =====
-- The loops of `complete_bundle` in flaredb/src/engine/watermark.rs: what they keep of one stage.
use flare_db.Base.{
  ◌≡◌, refl, subst, inl, inr, Bool, true, Bool-cases, Option, none, some, List, [], ◌∷◌, some_eq,
}
use flare_db.Base.Text.{str_eq, str_eq→eq, str_eq_refl, contains}
use flare_db.Base.Dict.{get, modify, get-modify}
use flare_db.Watermark.State.{Timestamp, StageId, PCollectionId, StageState, WatermarkManager}
use flare_db.Watermark.Manager.{consumers_of}
use flare_db.Watermark.Bundles.{Wake, wake_main, wake_side, wake_consumers, wake_outputs}
use mathlib.Core.Option

-- A property of one stage under the loops.
module _ {ℓ} (P : StageState → Type ℓ) (c : StageId) where
  abbrev pub At : WatermarkManager → Type ℓ
  At m = (t : StageState) → get c m.stage_map ≡ some t → P t

  pub modify_keeps :
      (id : StageId) (f : StageState → StageState) (m : WatermarkManager)
      → ((s : StageState) → P s → P (f s))
      → At m
      → At (record m { stage_map = modify id f m.stage_map })
  modify_keeps id f m keep h t g = elim (Bool-cases (str_eq id c)) [
    | inl e ↦
        let same : id ≡ c = str_eq→eq id c e in
        by_value t (get c m.stage_map) refl (rw (get-modify id c f m.stage_map, e, same) at g)
    | inr e ↦ h t (rw (get-modify id c f m.stage_map, e) at g)
  ]
    where
      by_value :
          (t : StageState) (o : Option StageState)
          → get c m.stage_map ≡ o
          → Option.map f o ≡ some t
          → P t
      by_value t none e k = absurd (cc)
      by_value t (some s) e k = subst P (some_eq (f s) t k) (keep s (h s e))

  pub wake_consumers_keeps :
      (f : StageState → StageState) (cs : List StageId) (w : Wake)
      → ((s : StageState) → P s → P (f s))
      → At w.manager
      → At (wake_consumers f cs w).manager
  unfolding wake_consumers
  wake_consumers_keeps f [] w keep h = h
  wake_consumers_keeps f (k ∷ cs) w keep h =
      wake_consumers_keeps f cs _ keep (modify_keeps k f w.manager keep h)

  pub wake_outputs_keeps :
      (empty : Bool) (min : Option Timestamp) (os : List PCollectionId) (w : Wake)
      → ((pc : PCollectionId) (s : StageState) → P s → P (wake_main pc empty min s))
      → ((pc : PCollectionId) (s : StageState) → P s → P (wake_side pc empty s))
      → At w.manager
      → At (wake_outputs empty min os w).manager
  unfolding wake_outputs
  wake_outputs_keeps empty min [] w main side h = h
  wake_outputs_keeps empty min (o ∷ os) w main side h =
      let one : Wake =
        wake_consumers (wake_main o empty min) (consumers_of (get o w.manager.consumers)) w in
      let two : Wake =
        wake_consumers (wake_side o empty) (consumers_of (get o one.manager.side_input_consumers))
          one in
      wake_outputs_keeps empty min os two main side (
        wake_consumers_keeps (wake_side o empty)
          (consumers_of (get o one.manager.side_input_consumers)) one (side o)
          (wake_consumers_keeps (wake_main o empty min) (consumers_of (get o w.manager.consumers)) w
            (main o) h))

  -- A consumer of the list gets the change.
  pub wake_consumers_reaches :
      (f : StageState → StageState) (cs : List StageId) (w : Wake)
      → ((s : StageState) → P (f s))
      → contains cs c ≡ true
      → At (wake_consumers f cs w).manager
  unfolding wake_consumers contains
  wake_consumers_reaches f [] w make h = absurd (cc)
  wake_consumers_reaches f (k ∷ cs) w make h = elim (Bool-cases (str_eq k c)) [
    | inl e ↦ wake_consumers_keeps f cs _ (λ s _. make s) (λ t g. at_key t (str_eq→eq k c e) g)
    | inr e ↦ wake_consumers_reaches f cs _ make (rw e at h)
  ]
    where
      by_value : (t : StageState) (o : Option StageState) → Option.map f o ≡ some t → P t
      by_value t none k = absurd (cc)
      by_value t (some s) k = subst P (some_eq (f s) t k) (make s)

      at_key : (t : StageState) → k ≡ c → get c (modify k f w.manager.stage_map) ≡ some t → P t
      at_key t e g =
          by_value t (get c w.manager.stage_map)
            (rw (get-modify k c f w.manager.stage_map, e, str_eq_refl) at g)

pub wake_consumers-consumers :
    (f : StageState → StageState) (cs : List StageId) (w : Wake)
    → (wake_consumers f cs w).manager.consumers ≡ w.manager.consumers
unfolding wake_consumers
wake_consumers-consumers f [] w = refl
wake_consumers-consumers f (k ∷ cs) w = wake_consumers-consumers f cs _
