-- ===== src/Watermark/Refresh/Monotone.antt =====
-- Watermarks under `refresh` of flaredb/src/engine/watermark.rs: they only grow.
use flare_db.Base.{
  ℕ, zero, suc, ◌≡◌, refl, ap, ◌∙◌, inl, inr, ◌≤ℤ◌, false, Bool-cases, none, some, Option-cases,
  List, [], ◌∷◌, arith,
}
use flare_db.Base.Text.{str_eq, str_eq→eq}
use flare_db.Base.Dict.{get, modify, get-modify, keys, keys-modify}
use flare_db.Watermark.State.{Timestamp, StageId, StageState, WatermarkManager}
use flare_db.Watermark.Manager.{stages}
use flare_db.Watermark.Refresh.{
  compute_input, compute_output, Pass, advance, refresh_one, refresh_pass, refresh_loop, refresh,
  total_gap, first_pass,
}

-- The same stage with watermarks that are no earlier.
pub record IsLater (s t : StageState) : Type 0 where
  pub input : s.input ≤ℤ t.input
  pub output : s.output ≤ℤ t.output
  pub same : t ≡ record s { input = t.input; output = t.output }

pub IsLater-refl : (s : StageState) → IsLater s s
IsLater-refl s = record { input = omega arith; output = omega arith; same = refl }

pub IsLater-trans : (s t u : StageState) → IsLater s t → IsLater t u → IsLater s u
IsLater-trans s t u p q = record {
  input = omega arith;
  output = omega arith;
  same = q.same ∙ ap (λ (v : StageState). record v { input = u.input; output = u.output }) p.same;
}

-- The same wiring and the same stages, each later.
pub record Extends (m n : WatermarkManager) : Type 0 where
  pub producers : n.producers ≡ m.producers
  pub consumers : n.consumers ≡ m.consumers
  pub side_input_consumers : n.side_input_consumers ≡ m.side_input_consumers
  pub keys_same : keys n.stage_map ≡ keys m.stage_map
  pub stages :
      (id : StageId) (s : StageState)
      → get id m.stage_map ≡ some s
      → (t : StageState) × (get id n.stage_map ≡ some t) × IsLater s t
  pub missing : (id : StageId) → get id m.stage_map ≡ none → get id n.stage_map ≡ none

pub Extends-refl : (m : WatermarkManager) → Extends m m
Extends-refl m = record {
  producers = refl;
  consumers = refl;
  side_input_consumers = refl;
  keys_same = refl;
  stages = λ id s h. (s, h, IsLater-refl s);
  missing = λ id h. h;
}

pub Extends-trans : (m n o : WatermarkManager) → Extends m n → Extends n o → Extends m o
Extends-trans m n o p q = record {
  producers = q.producers ∙ p.producers;
  consumers = q.consumers ∙ p.consumers;
  side_input_consumers = q.side_input_consumers ∙ p.side_input_consumers;
  keys_same = q.keys_same ∙ p.keys_same;
  stages = λ id s h.
      let (t, ht, lt) = p.stages id s h in
      let (u, hu, lu) = q.stages id t ht in (u, hu, IsLater-trans s t u lt lu);
  missing = λ id h. q.missing id (p.missing id h);
}

pub advance-le : (old new : Timestamp) → old ≤ℤ advance old new
advance-le old new = ground arith

-- The stage after one round of the inner loop.
abbrev pub moved_to : Timestamp → Timestamp → StageState → StageState
moved_to new_input new_output t = record t {
  input = advance t.input new_input;
  output = advance t.output new_output;
}

pub moved_to-IsLater : (i o : Timestamp) (s : StageState) → IsLater s (moved_to i o s)
moved_to-IsLater i o s = record {
  input = advance-le s.input i;
  output = advance-le s.output o;
  same = refl;
}

-- Changing one stage by a function that makes it later.
pub modify-Extends :
    (id : StageId) (f : StageState → StageState) (m : WatermarkManager)
    → ((s : StageState) → IsLater s (f s))
    → Extends m (record m { stage_map = modify id f m.stage_map })
modify-Extends id f m later = record {
  producers = refl;
  consumers = refl;
  side_input_consumers = refl;
  keys_same = keys-modify id f m.stage_map;
  stages = λ j s h. elim (Bool-cases (str_eq id j)) [
    | inl e ↦
        let same : id ≡ j = str_eq→eq id j e in
        (f s, rw (get-modify id j f m.stage_map, e, same, h), later s)
    | inr e ↦ (s, rw (get-modify id j f m.stage_map, e, h), IsLater-refl s)
  ];
  missing = λ j h. elim (Bool-cases (str_eq id j)) [
    | inl e ↦ let same : id ≡ j = str_eq→eq id j e in rw (get-modify id j f m.stage_map, e, same, h)
    | inr e ↦ rw (get-modify id j f m.stage_map, e, h)
  ];
}

pub refresh_one-Extends : (id : StageId) (p : Pass) → Extends p.manager (refresh_one id p).manager
unfolding refresh_one
refresh_one-Extends id p = elim (Option-cases (get id p.manager.stage_map)) [
  | inl e ↦ rw (e, refresh_one) (Extends-refl p.manager)
  | inr (s, e) ↦
      rw (e, refresh_one)
        (modify-Extends id (moved_to (compute_input p.manager s) (compute_output p.manager s))
          p.manager (moved_to-IsLater _ _))
]

pub refresh_pass-Extends :
    (ids : List StageId) (p : Pass) → Extends p.manager (refresh_pass ids p).manager
unfolding refresh_pass
refresh_pass-Extends [] p = Extends-refl p.manager
refresh_pass-Extends (id ∷ ids) p =
    Extends-trans _ _ _ (unfold refresh_one in refresh_one-Extends id p)
      (refresh_pass-Extends ids (refresh_one id p))

pub refresh_loop-Extends :
    (fuel : ℕ) (ids : List StageId) (p : Pass) → Extends p.manager (refresh_loop fuel ids p).manager
unfolding refresh_loop
refresh_loop-Extends zero ids p = Extends-refl p.manager
refresh_loop-Extends (suc fuel) ids p =
    let q = record p { changed = false } in
    let step : Extends p.manager (refresh_pass ids q).manager = refresh_pass-Extends ids q in
    elim (Bool-cases (refresh_pass ids q).changed) [
      | inl e ↦
          rw (e, refresh_loop)
            (Extends-trans _ _ _ step (refresh_loop-Extends fuel ids (refresh_pass ids q)))
      | inr e ↦ rw (e, refresh_loop) step
    ]

-- `refresh` keeps the wiring and every stage, changes nothing of a stage but its two watermarks,
-- and never moves a watermark back.
pub refresh-Extends : (m : WatermarkManager) → Extends m (refresh m).0
unfolding refresh
refresh-Extends m = refresh_loop-Extends (suc (total_gap m.stage_map)) (stages m) (first_pass m)
