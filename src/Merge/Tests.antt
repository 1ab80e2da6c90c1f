-- ===== src/Merge/Tests.antt =====
-- Concrete windows for the merging of flaredb/src/engine/window.rs.
use flare_db.Base.{
  ◌≡◌, ◌≤◌, arith, Option, ℕ, ◌++◌, length, List, ◌↔◌, refl, pos, String, none, some, [], ◌∷◌,
}
use flare_db.Base.Text.{contains}
use flare_db.Coders.Window.{BeamWindow, interval, global, global_coder, interval_coder}
use flare_db.Merge.{
  MergedWindows, Refusal, not_requested, omitted, keys_of, validate_merge_result, distinct_windows,
}
use flare_db.Merge.Consume.{IsFresh}
use flare_db.Merge.Accepted.{IsPartition, validate_merge_result-IsPartition}
use flare_db.Merge.Batch.{Request, Answer, match_results, matched, failed, unknown_nonces}
use flare_db.Merge.Answered.{AllAnswered, match_results-AllAnswered}
use flare_db.Merge.Wire.{decode_merge_output_batch, finish_batch}
use flare_db.Coders.Pane.{no_firing}
use flare_db.Coders.Windowed.{then_some, encode_each, encode_windowed_value_header}
use flare_db.Merge.Cache.{
  MergeCacheKey, Cache, cached, key_eq_refl, insert_merge_cache, IsFirst, insert_merge_cache-bound,
}
use flare_db.Merge.Distinct.{distinct_windows-IsFresh}

abbrev first_session : BeamWindow
first_session = interval (pos 0) (pos 600)

abbrev second_session : BeamWindow
second_session = interval (pos 300) (pos 900)

abbrev joined : MergedWindows
joined = record {
  merged = interval (pos 0) (pos 900);
  originals = first_session ∷ second_session ∷ [];
}

abbrev alone : MergedWindows
alone = record { merged = first_session; originals = first_session ∷ [] }

accepted_test : validate_merge_result (first_session ∷ second_session ∷ []) (joined ∷ []) ≡ none
unfolding validate_merge_result flare_db.Merge.consume flare_db.Coders.Canonical.canonical_key
accepted_test = refl

omitted_test :
    validate_merge_result (first_session ∷ second_session ∷ []) (alone ∷ [])
    ≡ some (omitted ("interval:300:900" ∷ []))
unfolding validate_merge_result flare_db.Merge.consume flare_db.Coders.Canonical.canonical_key
omitted_test = refl

not_requested_test :
    validate_merge_result (first_session ∷ []) (joined ∷ [])
    ≡ some (not_requested "interval:300:900")
unfolding validate_merge_result flare_db.Merge.consume flare_db.Coders.Canonical.canonical_key
not_requested_test = refl

validate_merge_result-IsPartition_example :
    (validate_merge_result (first_session ∷ second_session ∷ []) (joined ∷ []) ≡ none)
    ↔ IsPartition (first_session ∷ second_session ∷ []) (joined ∷ [])
validate_merge_result-IsPartition_example =
    validate_merge_result-IsPartition (first_session ∷ second_session ∷ []) (joined ∷ [])

distinct_windows-IsFresh_example :
    IsFresh [] (keys_of (distinct_windows (first_session ∷ second_session ∷ first_session ∷ [])))
    × ((key : String)
        → contains
            (keys_of (distinct_windows (first_session ∷ second_session ∷ first_session ∷ [])))
            key
          ≡ contains (keys_of (first_session ∷ second_session ∷ first_session ∷ [])) key)
distinct_windows-IsFresh_example =
    distinct_windows-IsFresh (first_session ∷ second_session ∷ first_session ∷ [])

abbrev two_requests : List Request
two_requests = (1 ∷ [], first_session ∷ second_session ∷ []) ∷ (2 ∷ [], first_session ∷ []) ∷ []

abbrev two_answers : List Answer
two_answers = (2 ∷ [], alone ∷ []) ∷ (1 ∷ [], joined ∷ []) ∷ []

match_results-AllAnswered_example :
    AllAnswered two_answers two_requests ((joined ∷ []) ∷ (alone ∷ []) ∷ [])
    × (length two_answers ≡ length ((joined ∷ []) ∷ (alone ∷ []) ∷ []))
unfolding match_results validate_merge_result flare_db.Merge.consume
    flare_db.Coders.Canonical.canonical_key
match_results-AllAnswered_example =
    match_results-AllAnswered two_requests two_answers ((joined ∷ []) ∷ (alone ∷ []) ∷ []) refl

-- An answer in the global window, with no window left alone and one merge of two.
abbrev joined_bytes : Option (List ℕ)
joined_bytes =
    then_some (encode_windowed_value_header (pos 0) (global ∷ []) global_coder no_firing) λ header.
      then_some (encode_each interval_coder (joined.merged ∷ [])) λ merged.
        then_some (encode_each interval_coder joined.originals) λ originals. some (
          header
          ++ ((1 ∷ 9 ∷ [])
              ++ ((0 ∷ 0 ∷ 0 ∷ 0 ∷ [])
                  ++ ((0 ∷ 0 ∷ 0 ∷ 1 ∷ []) ++ (merged ++ ((0 ∷ 0 ∷ 0 ∷ 2 ∷ []) ++ originals))))))

decode_test :
    then_some joined_bytes (λ output. decode_merge_output_batch interval_coder output)
    ≡ some ((9 ∷ [], joined ∷ []) ∷ [])
unfolding encode_windowed_value_header flare_db.Coders.Window.encode_window
    decode_merge_output_batch flare_db.Coders.Timestamp.encode_timestamp_millis
    flare_db.Coders.Windowed.decode_windowed_value_header
    flare_db.Coders.Timestamp.decode_timestamp_millis flare_db.Coders.Window.decode_one_window
    flare_db.Coders.Pane.decode_pane_info flare_db.Coders.Pane.encode_pane_info flare_db.Base.eqb_ℤ
    flare_db.Base.◌-ℤ◌ flare_db.Coders.Varint.from_u64 flare_db.Coders.Timestamp.flip_sign
decode_test = refl

finish_test :
    then_some joined_bytes (λ output.
      finish_batch interval_coder ((9 ∷ [], first_session ∷ second_session ∷ []) ∷ []) output)
    ≡ some (matched ((joined ∷ []) ∷ []))
unfolding encode_windowed_value_header flare_db.Coders.Window.encode_window finish_batch
    flare_db.Coders.Timestamp.encode_timestamp_millis
    flare_db.Coders.Windowed.decode_windowed_value_header
    flare_db.Coders.Timestamp.decode_timestamp_millis flare_db.Coders.Window.decode_one_window
    flare_db.Coders.Pane.decode_pane_info flare_db.Coders.Pane.encode_pane_info flare_db.Base.eqb_ℤ
    flare_db.Base.◌-ℤ◌ validate_merge_result flare_db.Merge.consume
    flare_db.Coders.Canonical.canonical_key flare_db.Coders.Varint.from_u64
    flare_db.Coders.Timestamp.flip_sign
finish_test = refl

unknown_test :
    then_some joined_bytes (λ output. finish_batch interval_coder [] output)
    ≡ some (failed unknown_nonces)
unfolding encode_windowed_value_header flare_db.Coders.Window.encode_window finish_batch
    flare_db.Coders.Timestamp.encode_timestamp_millis
    flare_db.Coders.Windowed.decode_windowed_value_header
    flare_db.Coders.Timestamp.decode_timestamp_millis flare_db.Coders.Window.decode_one_window
    flare_db.Coders.Pane.decode_pane_info flare_db.Coders.Pane.encode_pane_info flare_db.Base.eqb_ℤ
    flare_db.Base.◌-ℤ◌
unknown_test = refl

abbrev head_key : Cache → Option MergeCacheKey
head_key [] = none
head_key ((key, value) ∷ cache) = some key

head_key-IsFirst : IsFirst head_key
unfolding cached
head_key-IsFirst [] h = absurd (h refl)
head_key-IsFirst ((key, value) ∷ cache) h = (key, refl, rw (key_eq_refl key) refl)

abbrev session_key : MergeCacheKey
session_key = record { strategy_id = "sessions"; windows = "interval:0:600" ∷ [] }

insert_merge_cache-bound_example :
    (length (insert_merge_cache head_key ((session_key, alone ∷ []) ∷ []) session_key (joined ∷ []))
      ≤ 1024)
    × (cached session_key
          (insert_merge_cache head_key ((session_key, alone ∷ []) ∷ []) session_key (joined ∷ []))
        ≡ some (joined ∷ []))
insert_merge_cache-bound_example =
    insert_merge_cache-bound head_key head_key-IsFirst ((session_key, alone ∷ []) ∷ []) session_key
      (joined ∷ []) (omega arith)
