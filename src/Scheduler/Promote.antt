-- ===== src/Scheduler/Promote.antt =====
-- Which timers `promote_due_timers` and `promote_due_event_time_timers` hand to which stage, and
-- which stages they re-arm.
use flare_db.Base.{
  ◌≡◌, refl, sym, subst, ap, ◌∙◌, Bool, true, false, ◌&&◌, Bool-cases, Option, Option-cases, none,
  some, List, [], ◌∷◌, ◌++◌, inl, inr, arith, if◌then◌else◌, append_append, min_ℤ,
}
use flare_db.Base.Text.{str_eq, str_eq→eq, sort, contains, contains-sort}
use flare_db.Base.Dict.{get, keys, get-put, get-modify, contains-keys}
use flare_db.Base.Members.{filter}
use mathlib.Core.Option
use mathlib.Core.List.{append-nil}
use flare_db.Timers.{TimerEntry, is_event_time, is_due_at_watermark}
use flare_db.Watermark.State.{StageId, StageState, WatermarkManager}
use flare_db.Watermark.Manager.{mark_rerun, stage_mut, effective_input_watermark}
use flare_db.Scheduler.Setup.{or_unchanged}
use flare_db.Scheduler.State.{
  NodeScheduler, timers_of, push_timer, entries_at, in_key_order, Promoted, promote, promote_each,
  promote_due_timers, is_due_for, watermark_or_min, promote_event_each,
  promote_due_event_time_timers, nothing_promoted,
}

-- A stage has an entry in the result only if it has timers.
abbrev pub group : List TimerEntry → Option (List TimerEntry)
group [] = none
group (e ∷ es) = some (e ∷ es)

abbrev owned_by : StageId → Option StageId → Bool
owned_by j none = false
owned_by j (some stage) = str_eq stage j

-- The timers that belong to a stage, and those among them whose time has come.
unfoldable pub belongs : NodeScheduler → StageId → TimerEntry → Bool
belongs s j e = owned_by j (get e.key.transform_id s.transform_to_stage)

unfoldable pub is_promoted : NodeScheduler → StageId → TimerEntry → Bool
unfolding belongs
is_promoted s j e = is_event_time e.domain && (belongs s j e && is_due_for s.watermarks j e)

-- A stage with timers is re-armed, and no other change is made.
abbrev pub rearm : List TimerEntry → StageState → StageState
rearm [] s = s
rearm (e ∷ es) s = record s { rerun_pending = true }

get-push_timer :
    (stage j : StageId) (e : TimerEntry) (m : List (StageId × List TimerEntry))
    → get j (push_timer stage e m)
      ≡ (if str_eq stage j then some (timers_of (get stage m) ++ (e ∷ [])) else get j m)
unfolding push_timer
get-push_timer stage j e m = get-put stage j (timers_of (get stage m) ++ (e ∷ [])) m

get-mark_rerun :
    (m : WatermarkManager) (stage j : StageId)
    → get j (or_unchanged m (mark_rerun m stage)).stage_map ≡ (
        if str_eq stage j
        then Option.map (λ (s : StageState). record s { rerun_pending = true }) (get j m.stage_map)
        else get j m.stage_map)
unfolding mark_rerun stage_mut
get-mark_rerun m stage j = elim (Option-cases (get stage m.stage_map)) [
  | inl n ↦ elim (Bool-cases (str_eq stage j)) [
    | inl t ↦
        let missing : get j m.stage_map ≡ none =
          subst (λ k. get k m.stage_map ≡ none) (str_eq→eq stage j t) n in
        rw (mark_rerun, stage_mut, n, t, missing) refl
    | inr f ↦ rw (mark_rerun, stage_mut, n, f) refl
  ]
  | inr (s, h) ↦
      rw (mark_rerun, stage_mut, h)
        (get-modify stage j (λ x. record x { rerun_pending = true }) m.stage_map
          ∙ (elim (Bool-cases (str_eq stage j)) [
            | inl t ↦ rw t (λ i.
                Option.map (λ (x : StageState). record x { rerun_pending = true })
                  (get (str_eq→eq stage j t i) m.stage_map))
            | inr f ↦ rw f refl
          ]))
]

-- What the loops maintain: `acc` gives the timers of each stage so far.
record IsSoFar (s : NodeScheduler) (acc : StageId → List TimerEntry) (p : Promoted) : Type 0 where
  groups : (j : StageId) → get j p.by_stage ≡ group (acc j)
  armed :
      (j : StageId)
      → get j p.rearmed.stage_map ≡ Option.map (rearm (acc j)) (get j s.watermarks.stage_map)

abbrev add_to : StageId → TimerEntry → (StageId → List TimerEntry) → StageId → List TimerEntry
add_to stage e acc j = if str_eq stage j then acc j ++ (e ∷ []) else acc j

timers_of-group : (es : List TimerEntry) → timers_of (group es) ≡ es
timers_of-group [] = refl
timers_of-group (e ∷ es) = refl

group-append :
    (es : List TimerEntry) (e : TimerEntry) → some (es ++ (e ∷ [])) ≡ group (es ++ (e ∷ []))
group-append [] e = refl
group-append (x ∷ es) e = refl

rearm-append :
    (es : List TimerEntry) (e : TimerEntry) (o : Option StageState)
    → Option.map (λ (s : StageState). record s { rerun_pending = true }) (Option.map (rearm es) o)
      ≡ Option.map (rearm (es ++ (e ∷ []))) o
rearm-append [] e none = refl
rearm-append [] e (some s) = refl
rearm-append (x ∷ es) e none = refl
rearm-append (x ∷ es) e (some s) = refl

promote-IsSoFar :
    (s : NodeScheduler) (acc : StageId → List TimerEntry) (p : Promoted) (stage : StageId)
    (e : TimerEntry)
    → IsSoFar s acc p
    → IsSoFar s (add_to stage e acc) (promote stage e p)
unfolding promote
promote-IsSoFar s acc p stage e h = record {
  groups = λ j. get-push_timer stage j e p.by_stage ∙ (elim (Bool-cases (str_eq stage j)) [
    | inl t ↦ rw t (
        (λ i. some (timers_of (get (str_eq→eq stage j t i) p.by_stage) ++ (e ∷ [])))
        ∙ ap (λ o. some (timers_of o ++ (e ∷ []))) (h.groups j)
        ∙ ap (λ es. some (es ++ (e ∷ []))) (timers_of-group (acc j))
        ∙ group-append (acc j) e)
    | inr f ↦ rw f (h.groups j)
  ]);
  armed = λ j. get-mark_rerun p.rearmed stage j ∙ (elim (Bool-cases (str_eq stage j)) [
    | inl t ↦ rw t (
        ap (Option.map (λ (x : StageState). record x { rerun_pending = true })) (h.armed j)
        ∙ rearm-append (acc j) e (get j s.watermarks.stage_map))
    | inr f ↦ rw f (h.armed j)
  ]);
}

IsSoFar-same :
    (s : NodeScheduler) (acc acc' : StageId → List TimerEntry) (p : Promoted)
    → ((j : StageId) → acc j ≡ acc' j)
    → IsSoFar s acc p
    → IsSoFar s acc' p
IsSoFar-same s acc acc' p same h = record {
  groups = λ j. h.groups j ∙ ap group (same j);
  armed = λ j. h.armed j ∙ ap (λ es. Option.map (rearm es) (get j s.watermarks.stage_map)) (same j);
}

-- The timers that a predicate chooses for each stage, after those found so far.
abbrev then_chosen :
    (StageId → TimerEntry → Bool)
    → List TimerEntry
    → (StageId → List TimerEntry)
    → StageId
    → List TimerEntry
then_chosen q timers acc j = acc j ++ filter (q j) timers

skipped :
    (q : StageId → TimerEntry → Bool) (e : TimerEntry) (timers : List TimerEntry)
    (acc : StageId → List TimerEntry)
    → ((j : StageId) → q j e ≡ false)
    → (j : StageId) → then_chosen q timers acc j ≡ then_chosen q (e ∷ timers) acc j
unfolding filter
skipped q e timers acc h j = rw (h j) refl

chosen :
    (q : StageId → TimerEntry → Bool) (stage : StageId) (e : TimerEntry) (timers : List TimerEntry)
    (acc : StageId → List TimerEntry)
    → ((j : StageId) → q j e ≡ str_eq stage j)
    → (j : StageId) → then_chosen q timers (add_to stage e acc) j ≡ then_chosen q (e ∷ timers) acc j
unfolding filter
chosen q stage e timers acc h j = elim (Bool-cases (str_eq stage j)) [
  | inl t ↦ rw (h j, t) (append_append (acc j) (e ∷ []) (filter (q j) timers))
  | inr f ↦ rw (h j, f) refl
]

promote_each-IsSoFar :
    (s : NodeScheduler) (due : List TimerEntry) (acc : StageId → List TimerEntry) (p : Promoted)
    → IsSoFar s acc p
    → IsSoFar s (then_chosen (belongs s) due acc) (promote_each s due p)
unfolding promote_each filter belongs
promote_each-IsSoFar s [] acc p h = IsSoFar-same s acc _ p (λ j. sym (append-nil (acc j))) h
promote_each-IsSoFar s (e ∷ due) acc p h =
    elim (Option-cases (get e.key.transform_id s.transform_to_stage)) [
      | inl n ↦
          rw (promote_each, n)
            (IsSoFar-same s (then_chosen (belongs s) due acc)
              (then_chosen (belongs s) (e ∷ due) acc) _
              (skipped (belongs s) e due acc λ j. rw (belongs, n) refl)
              (promote_each-IsSoFar s due acc p h))
      | inr (stage, o) ↦
          rw (promote_each, o)
            (IsSoFar-same s (then_chosen (belongs s) due (add_to stage e acc))
              (then_chosen (belongs s) (e ∷ due) acc) _
              (chosen (belongs s) stage e due acc λ j. rw (belongs, o) refl)
              (promote_each-IsSoFar s due (add_to stage e acc) (promote stage e p)
                (promote-IsSoFar s acc p stage e h)))
    ]

-- Re-arming does not move a watermark.
effective_same :
    (s : NodeScheduler) (acc : StageId → List TimerEntry) (p : Promoted) (stage : StageId)
    (e : TimerEntry)
    → IsSoFar s acc p
    → is_due_for p.rearmed stage e ≡ is_due_for s.watermarks stage e
unfolding is_due_for effective_input_watermark
effective_same s acc p stage e h =
    ap
      (λ o.
        is_due_at_watermark e
          (watermark_or_min (Option.map (λ (x : StageState). min_ℤ x.input x.pending_min) o)))
      (h.armed stage)
    ∙ ap (λ o. is_due_at_watermark e (watermark_or_min o))
        (map-rearm (acc stage) (get stage s.watermarks.stage_map))
  where
    map-rearm :
        (es : List TimerEntry) (o : Option StageState)
        → Option.map (λ (x : StageState). min_ℤ x.input x.pending_min) (Option.map (rearm es) o)
          ≡ Option.map (λ (x : StageState). min_ℤ x.input x.pending_min) o
    map-rearm es none = refl
    map-rearm [] (some x) = refl
    map-rearm (e ∷ es) (some x) = refl

-- Whether a timer of a stage is promoted depends on the stage that owns it alone.
is_promoted-owner :
    (s : NodeScheduler) (stage j : StageId) (e : TimerEntry)
    → is_event_time e.domain ≡ true
    → get e.key.transform_id s.transform_to_stage ≡ some stage
    → is_promoted s j e ≡ (if str_eq stage j then is_due_for s.watermarks stage e else false)
unfolding is_promoted
is_promoted-owner s stage j e t o = elim (Bool-cases (str_eq stage j)) [
  | inl same ↦
      rw (belongs, is_promoted, t, o, same)
        (λ i. is_due_for s.watermarks (sym (str_eq→eq stage j same) i) e)
  | inr f ↦ rw (belongs, is_promoted, t, o, f) refl
]

promote_event_each-IsSoFar :
    (s : NodeScheduler) (timers : List TimerEntry) (acc : StageId → List TimerEntry) (p : Promoted)
    → IsSoFar s acc p
    → IsSoFar s (then_chosen (is_promoted s) timers acc) (promote_event_each s timers p)
unfolding promote_event_each filter is_promoted
promote_event_each-IsSoFar s [] acc p h = IsSoFar-same s acc _ p (λ j. sym (append-nil (acc j))) h
promote_event_each-IsSoFar s (e ∷ timers) acc p h =
    let skip : ((j : StageId) → is_promoted s j e ≡ false)
        → IsSoFar s (then_chosen (is_promoted s) (e ∷ timers) acc) (promote_event_each s timers p) =
      λ q.
        IsSoFar-same s (then_chosen (is_promoted s) timers acc) _ _
          (skipped (is_promoted s) e timers acc q) (promote_event_each-IsSoFar s timers acc p h) in
    elim (Bool-cases (is_event_time e.domain)) [
      | inr f ↦ rw (promote_event_each, f) (skip λ j. rw (is_promoted, f) refl)
      | inl t ↦ elim (Option-cases (get e.key.transform_id s.transform_to_stage)) [
        | inl n ↦ rw (promote_event_each, t, n) (skip λ j. rw (is_promoted, belongs, t, n) refl)
        | inr (stage, o) ↦ elim (Bool-cases (is_due_for p.rearmed stage e)) [
          | inr f ↦
              let early = sym (effective_same s acc p stage e h) ∙ f in
              rw (promote_event_each, t, o, f)
                (skip λ j. is_promoted-owner s stage j e t o ∙ rw early (ground arith))
          | inl d ↦
              let due = sym (effective_same s acc p stage e h) ∙ d in
              rw (promote_event_each, t, o, d)
                (IsSoFar-same s (then_chosen (is_promoted s) timers (add_to stage e acc)) _ _
                  (chosen (is_promoted s) stage e timers acc
                    λ j. is_promoted-owner s stage j e t o ∙ rw due (ground arith))
                  (promote_event_each-IsSoFar s timers (add_to stage e acc) (promote stage e p)
                    (promote-IsSoFar s acc p stage e h)))
        ]
      ]
    ]

-- A lookup in the entries of a map.
get-entries_at :
    (m : List (StageId × List TimerEntry)) (j : StageId) (ks : List StageId)
    → get j (entries_at m ks) ≡ (if contains ks j then get j m else none)
unfolding entries_at contains get
get-entries_at m j [] = refl
get-entries_at m j (k ∷ ks) = elim (Bool-cases (str_eq k j)) [
  | inl t ↦ elim (Option-cases (get j m)) [
    | inl n ↦
        let missing : get k m ≡ none = (λ i. get (str_eq→eq k j t i) m) ∙ n in
        rw (entries_at, contains, missing, t, n)
          (get-entries_at m j ks ∙ no_difference (contains ks j) (get j m) n)
    | inr (es, h) ↦
        let found : get k m ≡ some es = (λ i. get (str_eq→eq k j t i) m) ∙ h in
        rw (entries_at, contains, found, t, h) refl
  ]
  | inr f ↦ elim (Option-cases (get k m)) [
    | inl n ↦ rw (entries_at, contains, n, f) (get-entries_at m j ks)
    | inr (es, h) ↦ rw (entries_at, contains, h, f) (get-entries_at m j ks)
  ]
]
  where
    no_difference :
        (b : Bool) (o : Option (List TimerEntry)) → o ≡ none → (if b then o else none) ≡ none
    no_difference true o h = h
    no_difference false o h = refl

get-in_key_order :
    (m : List (StageId × List TimerEntry)) (j : StageId) → get j (in_key_order m) ≡ get j m
unfolding in_key_order
get-in_key_order m j =
    get-entries_at m j (sort (keys m)) ∙ rw (contains-sort j (keys m)) (all_keys (get j m) refl)
  where
    all_keys :
        (o : Option (List TimerEntry)) → get j m ≡ o → (if contains (keys m) j then o else none) ≡ o
    all_keys none h = ground arith
    all_keys (some es) h = rw (contains-keys j m es h) refl

rearm_none : (o : Option StageState) → o ≡ Option.map (rearm []) o
rearm_none none = refl
rearm_none (some x) = refl

start-IsSoFar : (s : NodeScheduler) → IsSoFar s (λ j. []) (nothing_promoted s)
unfolding get
start-IsSoFar s = record {
  groups = λ j. refl;
  armed = λ j. rearm_none (get j s.watermarks.stage_map);
}

-- The processing-time timers that are due are handed to the stage that owns them, all of them and in
-- their order, and that stage is re-armed; a timer of no stage is left out, and no other stage changes.
pub promote_due_timers_exact :
    (s : NodeScheduler) (due : List TimerEntry) (j : StageId)
    → (get j (promote_due_timers s due).0 ≡ group (filter (belongs s j) due))
      × (get j (promote_due_timers s due).1.watermarks.stage_map
          ≡ Option.map (rearm (filter (belongs s j) due)) (get j s.watermarks.stage_map))
unfolding promote_due_timers
promote_due_timers_exact s due j =
    let done = promote_each-IsSoFar s due (λ k. []) (nothing_promoted s) (start-IsSoFar s) in
    (
      get-in_key_order (promote_each s due (nothing_promoted s)).by_stage j ∙ done.groups j,
      done.armed j,
    )

-- The event-time timers that the input watermark of the stage that owns them, clamped by its pending
-- input, has reached are handed to that stage, all of them and in their order, and the stage is
-- re-armed; a timer of processing time or of no stage is left out, and no other stage changes.
pub promote_due_event_time_timers_exact :
    (s : NodeScheduler) (timers : List TimerEntry) (j : StageId)
    → (get j (promote_due_event_time_timers s timers).0 ≡ group (filter (is_promoted s j) timers))
      × (get j (promote_due_event_time_timers s timers).1.watermarks.stage_map
          ≡ Option.map (rearm (filter (is_promoted s j) timers)) (get j s.watermarks.stage_map))
unfolding promote_due_event_time_timers
promote_due_event_time_timers_exact s timers j =
    let done =
      promote_event_each-IsSoFar s timers (λ k. []) (nothing_promoted s) (start-IsSoFar s) in
    (
      get-in_key_order (promote_event_each s timers (nothing_promoted s)).by_stage j
          ∙ done.groups j,
      done.armed j,
    )
