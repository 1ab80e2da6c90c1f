-- ===== src/Merge/Batch.antt =====
-- The pairing of answers with requests in `invoke_batch` of flaredb/src/engine/window.rs.
use flare_db.Base.{ℕ, Bool, true, false, ◌==◌, Option, none, some, List, [], ◌∷◌, if◌then◌else◌}
use flare_db.Coders.Window.{BeamWindow}
use flare_db.Merge.{MergedWindows, Refusal, validate_merge_result}

abbrev pub Nonce : Type 0
Nonce = List ℕ

-- A request of a batch, and an answer to one.
abbrev pub Request : Type 0
Request = Nonce × List BeamWindow

abbrev pub Answer : Type 0
Answer = Nonce × List MergedWindows

-- Equality of two vectors of bytes.
unfoldable pub bytes_eq : List ℕ → List ℕ → Bool
bytes_eq [] [] = true
bytes_eq [] (y ∷ ys) = false
bytes_eq (x ∷ xs) [] = false
bytes_eq (x ∷ xs) (y ∷ ys) = let rest = bytes_eq xs ys in if x == y then rest else false

-- The look-up and the removal of a nonce in the map of answers.
unfoldable pub answer_to : Nonce → List Answer → Option (List MergedWindows)
unfolding bytes_eq
answer_to nonce [] = none
answer_to nonce ((key, merged) ∷ by_nonce) =
    let rest = answer_to nonce by_nonce in if bytes_eq key nonce then some merged else rest

unfoldable pub forget : Nonce → List Answer → List Answer
unfolding bytes_eq
forget nonce [] = []
forget nonce ((key, merged) ∷ by_nonce) =
    let rest = forget nonce by_nonce in
    if bytes_eq key nonce then by_nonce else (key, merged) ∷ rest

pub data BatchError : Type 0 where
  duplicate_nonce : BatchError
  no_result : BatchError
  invalid : Refusal → BatchError
  unknown_nonces : BatchError

pub data Matched : Type 0 where
  matched : List (List MergedWindows) → Matched
  failed : BatchError → Matched

-- The loop that builds the map: a nonce that stands twice is an error.
unfoldable pub index_answers : List Answer → List Answer → Option (List Answer)
unfolding answer_to
index_answers [] by_nonce = some by_nonce
index_answers ((nonce, merged) ∷ rest) by_nonce =
    let indexed = index_answers rest ((nonce, merged) ∷ by_nonce) in
    elim (answer_to nonce by_nonce) [ none ↦ indexed | some old ↦ none ]

abbrev pub push_result : List MergedWindows → Matched → Matched
push_result merged (matched results) = matched (merged ∷ results)
push_result merged (failed e) = failed e

-- A result is kept if it is valid.
abbrev pub keep_valid : List MergedWindows → Option Refusal → Matched → Matched
keep_valid merged none rest = push_result merged rest
keep_valid merged (some e) rest = failed (invalid e)

abbrev pub keep_result : List BeamWindow → Option (List MergedWindows) → Matched → Matched
keep_result windows none rest = failed no_result
keep_result windows (some merged) rest =
    keep_valid merged (validate_merge_result windows merged) rest

abbrev pub nothing_left : List Answer → Matched
nothing_left [] = matched []
nothing_left (answer ∷ by_nonce) = failed unknown_nonces

-- The loop over the requests, and the check that no answer is left.
unfoldable pub take_results : List Request → List Answer → Matched
unfolding answer_to forget
take_results [] by_nonce = nothing_left by_nonce
take_results ((nonce, windows) ∷ requests) by_nonce =
    keep_result windows (answer_to nonce by_nonce) (take_results requests (forget nonce by_nonce))

unfoldable pub match_results : List Request → List Answer → Matched
unfolding index_answers take_results
match_results requests answers = elim (index_answers answers []) [
  | none ↦ failed duplicate_nonce
  | some by_nonce ↦ take_results requests by_nonce
]
