-- ===== src/Watermark/History/Graph.antt =====
-- Calls on flaredb/src/engine/watermark.rs that leave the graph and the two watermarks alone.
use flare_db.Base.{
  ◌≡◌, refl, ◌∙◌, inl, inr, ◌≤ℤ◌, Bool, true, false, Bool-cases, Option, none, some, Option-cases,
  List, [], ◌∷◌, min_ℤ,
}
use flare_db.Base.Text.{str_eq, str_eq→eq}
use flare_db.Base.Dict.{get, modify, modify_all, get-modify, get-modify_all}
use flare_db.Watermark.State.{
  Timestamp, StageId, PCollectionId, StageState, WatermarkManager, is_none, max_timestamp,
  min_timestamp,
}
use flare_db.Watermark.Manager.{stage_or}
use flare_db.Watermark.Bundles.{
  Wake, producer_stage, all_inputs, wake_main, wake_side, wake_consumers, wake_outputs,
}
use flare_db.Watermark.Manager.{consumers_of}
use flare_db.Watermark.Refresh.{upstream, min_upstream, compute_input}
use flare_db.Watermark.Refresh.Spec.{IsSound}
use mathlib.Core.Option

pub record SameWatermarks (s t : StageState) : Type 0 where
  pub input : t.input ≡ s.input
  pub output : t.output ≡ s.output
  pub main_inputs : t.main_inputs ≡ s.main_inputs
  pub side_inputs : t.side_inputs ≡ s.side_inputs
  pub source : is_none t.source ≡ is_none s.source

pub SameWatermarks-refl : (s : StageState) → SameWatermarks s s
SameWatermarks-refl s = record {
  input = refl;
  output = refl;
  main_inputs = refl;
  side_inputs = refl;
  source = refl;
}

SameWatermarks-trans :
    (s t u : StageState) → SameWatermarks s t → SameWatermarks t u → SameWatermarks s u
SameWatermarks-trans s t u p q = record {
  input = q.input ∙ p.input;
  output = q.output ∙ p.output;
  main_inputs = q.main_inputs ∙ p.main_inputs;
  side_inputs = q.side_inputs ∙ p.side_inputs;
  source = q.source ∙ p.source;
}

abbrev pub Related : Option StageState → Option StageState → Type 0
Related none none = Unit {0}
Related (some s) (some t) = SameWatermarks s t
Related _ _ = ⊥

Related-refl : (o : Option StageState) → Related o o
Related-refl none = tt
Related-refl (some s) = SameWatermarks-refl s

Related-trans : (o p q : Option StageState) → Related o p → Related p q → Related o q
Related-trans none none none h k = tt
Related-trans (some s) (some t) (some u) h k = SameWatermarks-trans s t u h k
Related-trans none none (some u) h k = k
Related-trans none (some t) q h k = absurd h
Related-trans (some s) none q h k = absurd h
Related-trans (some s) (some t) none h k = k

-- The same producers, and at each id the same stage but for what is not compared.
pub record IsSameGraph (m n : WatermarkManager) : Type 0 where
  pub producers : n.producers ≡ m.producers
  pub related : (id : StageId) → Related (get id m.stage_map) (get id n.stage_map)

pub IsSameGraph-trans :
    (m n o : WatermarkManager) → IsSameGraph m n → IsSameGraph n o → IsSameGraph m o
IsSameGraph-trans m n o p q = record {
  producers = q.producers ∙ p.producers;
  related = λ id.
      Related-trans (get id m.stage_map) (get id n.stage_map) (get id o.stage_map) (p.related id)
        (q.related id);
}

Related-map :
    (f : StageState → StageState) (o : Option StageState)
    → ((s : StageState) → SameWatermarks s (f s))
    → Related o (Option.map f o)
Related-map f none h = tt
Related-map f (some s) h = h s

pub modify-IsSameGraph :
    (id : StageId) (f : StageState → StageState) (m : WatermarkManager)
    → ((s : StageState) → SameWatermarks s (f s))
    → IsSameGraph m (record m { stage_map = modify id f m.stage_map })
modify-IsSameGraph id f m h = record {
  producers = refl;
  related = λ j. elim (Bool-cases (str_eq id j)) [
    | inl e ↦
        let same : id ≡ j = str_eq→eq id j e in
        rw (get-modify id j f m.stage_map, e, same) (Related-map f (get j m.stage_map) h)
    | inr e ↦ rw (get-modify id j f m.stage_map, e) (Related-refl (get j m.stage_map))
  ];
}

pub modify_all-IsSameGraph :
    (f : StageId → StageState → StageState) (m : WatermarkManager)
    → ((id : StageId) (s : StageState) → SameWatermarks s (f id s))
    → IsSameGraph m (record m { stage_map = modify_all f m.stage_map })
modify_all-IsSameGraph f m h = record {
  producers = refl;
  related = λ j. rw (get-modify_all j f m.stage_map) (Related-map (f j) (get j m.stage_map) (h j));
}

pub wake_consumers-IsSameGraph :
    (f : StageState → StageState) (cs : List StageId) (w : Wake)
    → ((s : StageState) → SameWatermarks s (f s))
    → IsSameGraph w.manager (wake_consumers f cs w).manager
unfolding wake_consumers
wake_consumers-IsSameGraph f [] w h = record {
  producers = refl;
  related = λ id. Related-refl (get id w.manager.stage_map);
}
wake_consumers-IsSameGraph f (k ∷ cs) w h =
    IsSameGraph-trans _ _ _ (modify-IsSameGraph k f w.manager h)
      (wake_consumers-IsSameGraph f cs _ h)

wake_main-SameWatermarks :
    (pc : PCollectionId) (empty : Bool) (min : Option Timestamp) (s : StageState)
    → SameWatermarks s (wake_main pc empty min s)
unfolding wake_main
wake_main-SameWatermarks pc empty min s = record {
  input = refl;
  output = refl;
  main_inputs = refl;
  side_inputs = refl;
  source = refl;
}

wake_side-SameWatermarks :
    (pc : PCollectionId) (empty : Bool) (s : StageState) → SameWatermarks s (wake_side pc empty s)
unfolding wake_side
wake_side-SameWatermarks pc true s = record {
  input = refl;
  output = refl;
  main_inputs = refl;
  side_inputs = refl;
  source = refl;
}
wake_side-SameWatermarks pc false s = record {
  input = refl;
  output = refl;
  main_inputs = refl;
  side_inputs = refl;
  source = refl;
}

pub wake_outputs-IsSameGraph :
    (empty : Bool) (min : Option Timestamp) (os : List PCollectionId) (w : Wake)
    → IsSameGraph w.manager (wake_outputs empty min os w).manager
unfolding wake_outputs
wake_outputs-IsSameGraph empty min [] w = record {
  producers = refl;
  related = λ id. Related-refl (get id w.manager.stage_map);
}
wake_outputs-IsSameGraph empty min (o ∷ os) w =
    let one : Wake =
      wake_consumers (wake_main o empty min) (consumers_of (get o w.manager.consumers)) w in
    let two : Wake =
      wake_consumers (wake_side o empty) (consumers_of (get o one.manager.side_input_consumers))
        one in
    IsSameGraph-trans _ _ _
      (wake_consumers-IsSameGraph (wake_main o empty min) (consumers_of (get o w.manager.consumers))
        w (wake_main-SameWatermarks o empty min))
      (IsSameGraph-trans one.manager two.manager _
        (wake_consumers-IsSameGraph (wake_side o empty)
          (consumers_of (get o one.manager.side_input_consumers)) one
          (wake_side-SameWatermarks o empty))
        (wake_outputs-IsSameGraph empty min os two))

stage_or-Related :
    (o p : Option StageState)
    → Related o p
    → stage_or min_timestamp (λ s. s.output) p ≡ stage_or min_timestamp (λ s. s.output) o
stage_or-Related none none h = refl
stage_or-Related (some s) (some t) h = h.output
stage_or-Related none (some t) h = absurd h
stage_or-Related (some s) none h = absurd h

upstream_same :
    (m n : WatermarkManager) (i : PCollectionId) → IsSameGraph m n → upstream n i ≡ upstream m i
unfolding upstream
upstream_same m n i g = elim (Option-cases (get i m.producers)) [
  | inl e ↦ rw (g.producers, e, producer_stage)
  | inr (id, e) ↦
      rw (g.producers, e, producer_stage)
        (stage_or-Related (get id m.stage_map) (get id n.stage_map) (g.related id))
]

min_upstream_same :
    (m n : WatermarkManager) (w : Timestamp) (is : List PCollectionId)
    → IsSameGraph m n
    → min_upstream n w is ≡ min_upstream m w is
unfolding min_upstream
min_upstream_same m n w [] g = refl
min_upstream_same m n w (i ∷ is) g =
    rw (upstream_same m n i g) (min_upstream_same m n (min_ℤ w (upstream m i)) is g)

compute_input_same :
    (m n : WatermarkManager) (s t : StageState)
    → IsSameGraph m n
    → SameWatermarks s t
    → compute_input n t ≡ compute_input m s
unfolding compute_input
compute_input_same m n s t g h =
    rw
      (h.source, h.main_inputs, h.side_inputs, min_upstream_same m n max_timestamp (all_inputs s) g)

-- Input watermarks stay at or below the outputs upstream.
pub IsSameGraph-IsSound : (m n : WatermarkManager) → IsSameGraph m n → IsSound m → IsSound n
unfolding compute_input
IsSameGraph-IsSound m n g sound id t h = by_stage (get id m.stage_map) refl (rw h at (g.related id))
  where
    by_stage :
        (o : Option StageState)
        → get id m.stage_map ≡ o
        → Related o (some t)
        → t.input ≤ℤ compute_input n t
    by_stage none e r = absurd r
    by_stage (some s) e r = rw (r.input, compute_input_same m n s t g r) (sound id s e)
