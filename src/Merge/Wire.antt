-- ===== src/Merge/Wire.antt =====
-- The bytes of a batch of merges in flaredb/src/engine/window.rs. An error, or a panic, which
-- `invoke_batch` turns into an error, is `none`.
use flare_db.Base.{
  ℕ, zero, suc, ℤ, negsuc, Bool, true, false, not, Option, none, some, List, [], ◌∷◌, ◌++◌, length,
  take, drop, ltb, if◌then◌else◌,
}
use flare_db.Coders.Varint.{encode_varint, decode_varint}
use flare_db.Coders.Timestamp.{put_be, get_be}
use flare_db.Coders.Pane.{no_firing}
use flare_db.Coders.Window.{BeamWindow, global, WindowCoder, global_coder, decode_one_window}
use flare_db.Coders.Windowed.{
  then_some, encode_each, decode_each, encode_windowed_value_header, decode_windowed_value_header,
}
use flare_db.Merge.{MergedWindows}
use flare_db.Merge.Batch.{Nonce, Request, Answer, Matched, match_results}

-- `BEAM_MIN_TIMESTAMP_MILLIS`
abbrev pub beam_min_timestamp_millis : ℤ
beam_min_timestamp_millis = negsuc 9_223_372_036_854_774

-- A request of 2 ^ 31 windows panics.
unfoldable pub encode_merge_input : Nonce → List BeamWindow → WindowCoder → Option (List ℕ)
encode_merge_input nonce windows window_coder =
    then_some
      (encode_windowed_value_header beam_min_timestamp_millis (global ∷ []) global_coder no_firing)
      λ header.
        if ltb 2_147_483_647 (length windows)
        then none
        else then_some (encode_each window_coder windows) λ bytes. some (
            header
            ++ (encode_varint (length nonce) ++ (nonce ++ (put_be 4 (length windows) ++ bytes))))

-- The input of a batch: the requests one after the other.
unfoldable pub encode_batch : WindowCoder → List Request → Option (List ℕ)
unfolding encode_merge_input
encode_batch window_coder [] = some []
encode_batch window_coder ((nonce, windows) ∷ requests) =
    then_some (encode_merge_input nonce windows window_coder)
      λ first. then_some (encode_batch window_coder requests) λ rest. some (first ++ rest)

-- A negative length, which a chunked iterable starts with, is an error.
unfoldable pub decode_count : List ℕ → Option (ℕ × List ℕ)
decode_count buf =
    then_some (get_be 4 0 buf) λ count. if ltb count.0 2_147_483_648 then some count else none

unfoldable pub decode_nested_bytes : List ℕ → Option (List ℕ × List ℕ)
decode_nested_bytes buf =
    then_some (decode_varint buf)
      λ len. if ltb (length len.1) len.0 then none else some (take len.0 len.1, drop len.0 len.1)

unfoldable pub decode_window_iterable : WindowCoder → List ℕ → Option (List BeamWindow × List ℕ)
unfolding decode_count
decode_window_iterable window_coder buf =
    then_some (decode_count buf) λ count. decode_each count.0 window_coder count.1

-- A window that the SDK did not merge.
abbrev pub unmerged : List BeamWindow → List MergedWindows
unmerged [] = []
unmerged (window ∷ windows) = record { merged = window; originals = window ∷ [] } ∷ unmerged windows

-- The loop over the pairs of a merged window and its originals.
unfoldable pub decode_pairs : ℕ → WindowCoder → List ℕ → Option (List MergedWindows × List ℕ)
unfolding decode_window_iterable
decode_pairs zero window_coder buf = some ([], buf)
decode_pairs (suc count) window_coder buf = then_some (decode_one_window window_coder buf) λ result.
    then_some (decode_window_iterable window_coder result.1) λ originals.
      then_some (decode_pairs count window_coder originals.1)
        λ rest. some (record { merged = result.0; originals = originals.0 } ∷ rest.0, rest.1)

-- `outer_windows == vec![BeamWindow::Global]`
abbrev pub is_global_only : List BeamWindow → Bool
is_global_only (global ∷ []) = true
is_global_only _ = false

unfoldable pub decode_merge_output_element : WindowCoder → List ℕ → Option (Answer × List ℕ)
unfolding decode_count decode_nested_bytes decode_window_iterable decode_pairs
decode_merge_output_element window_coder buf =
    then_some (decode_windowed_value_header global_coder buf) λ header.
      if not (is_global_only header.0.1.0)
      then none
      else then_some (decode_nested_bytes header.1) λ nonce.
        then_some (decode_window_iterable window_coder nonce.1) λ single.
          then_some (decode_count single.1) λ pair_count.
            then_some (decode_pairs pair_count.0 window_coder pair_count.1)
              λ pairs. some ((nonce.0, unmerged single.0 ++ pairs.0), pairs.1)

-- The loop while bytes remain, on fuel: an answer takes more than eight bytes.
unfoldable pub decode_answers : ℕ → WindowCoder → List ℕ → Option (List Answer)
unfolding decode_merge_output_element
decode_answers fuel window_coder [] = some []
decode_answers zero window_coder (byte ∷ buf) = none
decode_answers (suc fuel) window_coder (byte ∷ buf) =
    then_some (decode_merge_output_element window_coder (byte ∷ buf))
      λ first. then_some (decode_answers fuel window_coder first.1) λ rest. some (first.0 ∷ rest)

unfoldable pub decode_merge_output_batch : WindowCoder → List ℕ → Option (List Answer)
unfolding decode_answers
decode_merge_output_batch window_coder bytes = decode_answers (length bytes) window_coder bytes

-- The end of `invoke_batch`: the output of the bundle, decoded and paired with the requests.
unfoldable pub finish_batch : WindowCoder → List Request → List ℕ → Option Matched
unfolding decode_merge_output_batch match_results
finish_batch window_coder requests output =
    then_some (decode_merge_output_batch window_coder output)
      λ answers. some (match_results requests answers)
