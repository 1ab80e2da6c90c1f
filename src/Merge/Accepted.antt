-- ===== src/Merge/Accepted.antt =====
-- Which answers `validate_merge_result` of flaredb/src/engine/window.rs accepts.
use flare_db.Base.{
  ◌≡◌, ◌↔◌, inl, inr, refl, sym, ap, ◌∙◌, String, Bool, true, false, ◌||◌, none, none≢some,
  true≢false, Bool-cases, List, [], ◌∷◌, arith,
}
use flare_db.Base.Text.{contains, contains-set_insert, str_eq, str_eq→eq, str_eq_refl}
use flare_db.Base.Members.{filter}
use flare_db.Coders.Window.{BeamWindow}
use flare_db.Merge.Consume.{
  IsGrouped, all_keys, IsFresh, AllIn, Consumed-cases, consume-IsFresh, IsFresh-consume,
  IsGrouped-consume_merges, consume_merges-IsGrouped, or_cases, or_right,
}
use flare_db.Merge.{
  MergedWindows, keys_of, key_set, consume_merges, missing, complete, validate_merge_result,
}

-- The originals of the merges are the requested windows, each once, in groups that are not empty.
abbrev pub IsPartition : List BeamWindow → List MergedWindows → Type 0
IsPartition requested merged =
    IsGrouped merged
    × IsFresh [] (all_keys merged)
    × ((key : String) → contains (all_keys merged) key ≡ contains (keys_of requested) key)

contains-key_set : (keys : List String) (k : String) → contains (key_set keys) k ≡ contains keys k
unfolding key_set contains
contains-key_set [] k = refl
contains-key_set (key ∷ keys) k =
    ground (arith, contains-set_insert key k (key_set keys), contains-key_set keys k)

complete-missing :
    (requested out : List String) → complete (missing requested out) ≡ none → AllIn out requested
unfolding missing filter AllIn contains
complete-missing [] out h k e = absurd (true≢false false e refl)
complete-missing (key ∷ keys) out h k e = elim (Bool-cases (contains out key)) [
  | inl t ↦ elim (or_cases (str_eq key k) (contains keys k) e) [
    | inl same ↦ ap (contains out) (sym (str_eq→eq key k same)) ∙ t
    | inr later ↦ complete-missing keys out (rw t at h) k later
  ]
  | inr f ↦ absurd (none≢some none _ refl (sym (rw f at h)))
]

AllIn-complete :
    (requested out : List String) → AllIn out requested → complete (missing requested out) ≡ none
unfolding missing filter AllIn contains
AllIn-complete [] out all = refl
AllIn-complete (key ∷ keys) out all =
    let here = all key (rw (str_eq_refl key) refl) in
    rw here (AllIn-complete keys out (λ k e. all k (or_right (str_eq key k) (contains keys k) e)))

same_bool : (a b : Bool) → (a ≡ true → b ≡ true) → (b ≡ true → a ≡ true) → a ≡ b
same_bool true b f g = sym (f refl)
same_bool false true f g = g refl
same_bool false false f g = refl

only_left : (a : Bool) → (a || false) ≡ true → a ≡ true
only_left a h = ground arith

accepted-IsPartition :
    (requested : List BeamWindow) (merged : List MergedWindows)
    → validate_merge_result requested merged ≡ none
    → IsPartition requested merged
unfolding validate_merge_result AllIn contains
accepted-IsPartition requested merged h =
    let keys = key_set (keys_of requested) in
    elim (Consumed-cases (consume_merges keys merged [])) [
      | inr stop ↦ absurd (none≢some none _ refl (sym (rw stop.1 at h)))
      | inl run ↦
          let grouped = consume_merges-IsGrouped keys merged [] run.0 run.1 in
          let whole = sym (IsGrouped-consume_merges keys merged [] grouped) ∙ run.1 in
          let fresh = consume-IsFresh keys (all_keys merged) [] run.0 whole in
          let all = complete-missing keys run.0 (rw run.1 at h) in
          (
            grouped,
            fresh.1,
            λ key.
                same_bool (contains (all_keys merged) key) (contains (keys_of requested) key)
                  (λ e. sym (contains-key_set (keys_of requested) key) ∙ fresh.0 key e)
                  (λ e.
                    only_left (contains (all_keys merged) key)
                      (sym (fresh.2 key) ∙ all key (contains-key_set (keys_of requested) key ∙ e))),
          )
    ]

IsPartition-accepted :
    (requested : List BeamWindow) (merged : List MergedWindows)
    → IsPartition requested merged
    → validate_merge_result requested merged ≡ none
unfolding validate_merge_result AllIn contains
IsPartition-accepted requested merged (grouped, fresh, same) =
    let keys = key_set (keys_of requested) in
    let run =
      IsFresh-consume keys (all_keys merged) []
        (λ k e. contains-key_set (keys_of requested) k ∙ sym (same k) ∙ e) fresh in
    let whole = IsGrouped-consume_merges keys merged [] grouped ∙ run.1 in
    let out = consume-IsFresh keys (all_keys merged) [] run.0 run.1 in
    rw whole (
      AllIn-complete keys run.0 λ k e.
        out.2 k
        ∙ or_left (contains (all_keys merged) k)
            (same k ∙ sym (contains-key_set (keys_of requested) k) ∙ e))
  where
    or_left : (a : Bool) → a ≡ true → (a || false) ≡ true
    or_left a h = ground arith

-- The answer of an SDK to a request for merging is accepted exactly when no merge in it is without
-- original windows, no original window is named twice, and the windows named are those requested,
-- windows being told apart by their canonical keys.
pub validate_merge_result-IsPartition :
    (requested : List BeamWindow) (merged : List MergedWindows)
    → (validate_merge_result requested merged ≡ none) ↔ IsPartition requested merged
validate_merge_result-IsPartition requested merged =
    (accepted-IsPartition requested merged, IsPartition-accepted requested merged)
