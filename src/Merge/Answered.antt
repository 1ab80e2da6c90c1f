-- ===== src/Merge/Answered.antt =====
-- What `invoke_batch` of flaredb/src/engine/window.rs answers.
use flare_db.Base.{
  ℕ, suc, ◌+◌, ◌≡◌, refl, sym, ap, ◌∙◌, ◌⊎◌, inl, inr, true, false, ◌==◌, ==_iff, Option, none,
  some, none≢some, true≢false, some_eq, Bool-cases, Option-cases, List, [], ◌∷◌, length, arith,
}
use flare_db.Base.Members.{IsIn, here, there, IsIn-nil, IsIn-cases}
use flare_db.Coders.Window.{BeamWindow}
use flare_db.Merge.{MergedWindows, validate_merge_result}
use flare_db.Merge.Accepted.{IsPartition, validate_merge_result-IsPartition}
use flare_db.Merge.Batch.{
  Nonce, Request, Answer, bytes_eq, answer_to, forget, BatchError, Matched, matched, failed,
  index_answers, push_result, keep_result, nothing_left, take_results, match_results,
}

-- Each request, in order, has the result that the answers have for its nonce, and the result
-- partitions its windows.
pub data AllAnswered (answers : List Answer)
    : List Request → List (List MergedWindows) → Type 0 where
  none_asked : AllAnswered answers [] []
  answered_and :
      (nonce : Nonce) (windows : List BeamWindow) (merged : List MergedWindows)
      (requests : List Request) (results : List (List MergedWindows))
      → IsIn (nonce, merged) answers
      → IsPartition windows merged
      → AllAnswered answers requests results
      → AllAnswered answers ((nonce, windows) ∷ requests) (merged ∷ results)

bytes_eq→eq : (xs ys : List ℕ) → bytes_eq xs ys ≡ true → xs ≡ ys
unfolding bytes_eq
bytes_eq→eq [] [] h = refl
bytes_eq→eq [] (y ∷ ys) h = absurd (true≢false true refl (sym h))
bytes_eq→eq (x ∷ xs) [] h = absurd (true≢false true refl (sym h))
bytes_eq→eq (x ∷ xs) (y ∷ ys) h = elim (Bool-cases (x == y)) [
  | inl t ↦ (λ k. (==_iff x y).0 t k ∷ bytes_eq→eq xs ys (rw t at h) k)
  | inr f ↦ absurd (true≢false false (rw f at h) refl)
]

answer_to-IsIn :
    (nonce : Nonce) (by_nonce : List Answer) (merged : List MergedWindows)
    → answer_to nonce by_nonce ≡ some merged
    → IsIn {A = Answer} (nonce, merged) by_nonce
      × (length by_nonce ≡ suc (length (forget nonce by_nonce)))
unfolding answer_to forget
answer_to-IsIn nonce [] merged h = absurd (none≢some none _ refl h)
answer_to-IsIn nonce ((key, other) ∷ rest) merged h = elim (Bool-cases (bytes_eq key nonce)) [
  | inl t ↦
      let same = some_eq _ _ (rw t at h) in
      (here _ _ (λ k. (sym (bytes_eq→eq key nonce t) k, sym same k)), rw t refl)
  | inr f ↦
      let later = answer_to-IsIn nonce rest merged (rw f at h) in
      (there _ _ later.0, rw f (ap suc later.1))
]

forget-IsIn :
    (nonce : Nonce) (answer : Answer) (by_nonce : List Answer)
    → IsIn answer (forget nonce by_nonce)
    → IsIn answer by_nonce
unfolding forget
forget-IsIn nonce answer [] h = h
forget-IsIn nonce answer ((key, other) ∷ rest) h = elim (Bool-cases (bytes_eq key nonce)) [
  | inl t ↦ there _ _ (rw t at h)
  | inr f ↦ elim (IsIn-cases answer _ _ (rw f at h)) [
    | inl e ↦ here _ _ e
    | inr i ↦ there _ _ (forget-IsIn nonce answer rest i)
  ]
]

index_answers-IsIn :
    (answers by_nonce indexed : List Answer)
    → index_answers answers by_nonce ≡ some indexed
    → (length indexed ≡ length answers + length by_nonce)
      × ((answer : Answer) → IsIn answer indexed → IsIn answer answers ⊎ IsIn answer by_nonce)
unfolding index_answers
index_answers-IsIn [] by_nonce indexed h =
    let same = some_eq _ _ h in (omega (arith, ap length same), λ answer i. inr (rw same i))
index_answers-IsIn ((nonce, merged) ∷ rest) by_nonce indexed h =
    elim (Option-cases (answer_to nonce by_nonce)) [
      | inl fresh ↦
          let later =
            index_answers-IsIn rest ((nonce, merged) ∷ by_nonce) indexed
              (rw (fresh, index_answers) at h) in
          (
            omega (arith, later.0),
            λ answer i. elim (later.1 answer i) [
              | inl new ↦ inl (there _ _ new)
              | inr kept ↦ elim (IsIn-cases answer _ _ kept) [
                | inl e ↦ inl (here _ _ e)
                | inr old ↦ inr old
              ]
            ],
          )
      | inr old ↦ absurd (none≢some none _ refl (rw (old.1, index_answers) at h))
    ]

failed≢matched :
    (e : BatchError) (results : List (List MergedWindows)) → failed e ≡ matched results → ⊥
failed≢matched e results h = cc

matched_eq : (x y : List (List MergedWindows)) → matched x ≡ matched y → x ≡ y
matched_eq x y h = cc

push_result-matched :
    (merged : List MergedWindows) (rest : Matched) (results : List (List MergedWindows))
    → push_result merged rest ≡ matched results
    → (later : List (List MergedWindows)) × (rest ≡ matched later) × (merged ∷ later ≡ results)
push_result-matched merged (matched later) results h = (later, refl, matched_eq _ _ h)
push_result-matched merged (failed e) results h = absurd (failed≢matched e results h)

keep_result-matched :
    (windows : List BeamWindow) (found : Option (List MergedWindows)) (rest : Matched)
    (results : List (List MergedWindows))
    → keep_result windows found rest ≡ matched results
    → (merged : List MergedWindows) × (later : List (List MergedWindows)) × (found ≡ some merged)
      × IsPartition windows merged
      × (rest ≡ matched later)
      × (merged ∷ later ≡ results)
keep_result-matched windows none rest results h = absurd (failed≢matched _ results h)
keep_result-matched windows (some merged) rest results h =
    elim (Option-cases (validate_merge_result windows merged)) [
      | inl accepted ↦
          let kept = push_result-matched merged rest results (rw accepted at h) in
          (
            merged,
            kept.0,
            refl,
            (validate_merge_result-IsPartition windows merged).0 accepted,
            kept.1,
            kept.2,
          )
      | inr stop ↦ absurd (failed≢matched _ results (rw stop.1 at h))
    ]

nothing_left-matched :
    (by_nonce : List Answer) (results : List (List MergedWindows))
    → nothing_left by_nonce ≡ matched results
    → (by_nonce ≡ []) × (results ≡ [])
nothing_left-matched [] results h = (refl, sym (matched_eq _ _ h))
nothing_left-matched (answer ∷ by_nonce) results h = absurd (failed≢matched _ results h)

take_results-AllAnswered :
    (answers : List Answer) (requests : List Request) (by_nonce : List Answer)
    (results : List (List MergedWindows))
    → ((answer : Answer) → IsIn answer by_nonce → IsIn answer answers)
    → take_results requests by_nonce ≡ matched results
    → AllAnswered answers requests results × (length by_nonce ≡ length results)
unfolding take_results
take_results-AllAnswered answers [] by_nonce results from h =
    let over = nothing_left-matched by_nonce results h in
    (rw over.1 none_asked, ap length over.0 ∙ sym (ap length over.1))
take_results-AllAnswered answers ((nonce, windows) ∷ requests) by_nonce results from h =
    let (merged, later, found, partition, rest, whole) =
      keep_result-matched windows (answer_to nonce by_nonce) _ results h in
    let first = answer_to-IsIn nonce by_nonce merged found in
    let others =
      take_results-AllAnswered answers requests (forget nonce by_nonce) later
        (λ answer i. from answer (forget-IsIn nonce answer by_nonce i)) rest in
    (
      rw (sym whole)
          (answered_and nonce windows merged requests later (from _ first.0) partition others.0),
      first.1 ∙ ap suc others.1 ∙ ap length whole,
    )

-- If the answers of an SDK to a batch are accepted, then every request has, in the order of the
-- requests, the answer to its nonce, whose merges partition the windows that were requested, and there
-- are as many results as answers, so that none is left over.
pub match_results-AllAnswered :
    (requests : List Request) (answers : List Answer) (results : List (List MergedWindows))
    → match_results requests answers ≡ matched results
    → AllAnswered answers requests results × (length answers ≡ length results)
unfolding match_results
match_results-AllAnswered requests answers results h =
    elim (Option-cases (index_answers answers [])) [
      | inl twice ↦ absurd (failed≢matched _ results (rw (twice, match_results) at h))
      | inr indexed ↦
          let all = index_answers-IsIn answers [] indexed.0 indexed.1 in
          let taken =
            take_results-AllAnswered answers requests indexed.0 results
              (λ answer i. elim (all.1 answer i) [
                | inl given ↦ given
                | inr new ↦ absurd (IsIn-nil answer new)
              ])
              (rw (indexed.1, match_results) at h) in
          (taken.0, omega (arith, all.0, taken.1))
    ]
