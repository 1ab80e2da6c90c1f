-- ===== src/Coders/Tests.antt =====
-- Concrete values for the coders of flaredb/src/coders/primitives.rs.
use flare_db.Base.{
  length, ◌<◌, ◌≡◌, refl, ℕ, List, ◌-ℤ◌, pos, negsuc, true, false, some, [], ◌∷◌, ◌++◌, eqb_ℤ,
  if◌then◌else◌, arith,
}
use flare_db.Coders.Varint.{
  encode_varint, decode_varint, encode_signed_varint, decode_signed_varint,
  decode_varint-encode_varint, decode_signed_varint-encode_signed_varint,
}
use flare_db.Coders.Pane.{
  PaneInfo, late, pane_info, pane_timing, first_byte, encode_pane_info, encode_pane_info-pane_info,
}
use flare_db.Coders.Timestamp.{
  encode_timestamp_millis, decode_timestamp_millis, decode_timestamp_millis-encode_timestamp_millis,
}
use flare_db.Coders.Window.{interval, interval_coder}
use flare_db.Coders.Windowed.{
  AllEncodable, no_windows, window_and, encode_windowed_value_header, decode_windowed_value_header,
  decode_windowed_value_header-encode_windowed_value_header,
}
use flare_db.Coders.Key.{to_binary_key, bytes_ltb, to_binary_key→eq, bytes_ltb-to_binary_key}
use flare_db.Coders.Bytes.{
  done, exceeds, decode_length_delimited, decode_length_delimited-encode_varint,
}

decode_length_delimited-encode_varint_example :
    ((val rest : List ℕ)
      → length val ≡ 2
      → 5 ∷ 6 ∷ 7 ∷ [] ≡ val ++ rest
      → decode_length_delimited (encode_varint 2 ++ (5 ∷ 6 ∷ 7 ∷ [])) ≡ done val rest)
    × (3 < 2
        → decode_length_delimited (encode_varint 2 ++ (5 ∷ 6 ∷ 7 ∷ []))
          ≡ exceeds 2 3 (5 ∷ 6 ∷ 7 ∷ []))
decode_length_delimited-encode_varint_example =
    decode_length_delimited-encode_varint 2 (5 ∷ 6 ∷ 7 ∷ []) (omega arith)

-- A buffer that is exactly as long as was declared, and one that is a byte short.
exact_test : decode_length_delimited (2 ∷ 5 ∷ 6 ∷ []) ≡ done (5 ∷ 6 ∷ []) []
unfolding decode_length_delimited decode_varint
exact_test = refl

short_test : decode_length_delimited (2 ∷ 5 ∷ []) ≡ exceeds 2 1 (5 ∷ [])
unfolding decode_length_delimited decode_varint
short_test = refl

abbrev second_late : PaneInfo
second_late = record {
  is_first = false;
  is_last = true;
  timing = late;
  index = pos 300;
  non_speculative_index = negsuc 1;
}

encode_pane_info-pane_info_example :
    encode_pane_info (pane_info (pane_timing true false) (pos 3) false false)
    ≡ first_byte (pane_info (pane_timing true false) (pos 3) false false)
      ∷ (if eqb_ℤ (pos 3) (pos 0) then [] else encode_signed_varint (pos 3))
encode_pane_info-pane_info_example = encode_pane_info-pane_info true false false false (pos 3)

two_windows :
    AllEncodable interval_coder
      (interval (pos 0) (pos 60_000) ∷ interval (pos 60_000) (pos 120_000) ∷ [])
unfolding ◌-ℤ◌
two_windows =
    window_and _ _ (omega arith, omega arith) (window_and _ _ (omega arith, omega arith) no_windows)

decode_windowed_value_header-encode_windowed_value_header_example :
    (bytes : List ℕ) × (encode_windowed_value_header
        (pos 59_999)
        (interval (pos 0) (pos 60_000) ∷ interval (pos 60_000) (pos 120_000) ∷ [])
        interval_coder
        second_late
      ≡ some bytes)
    × (decode_windowed_value_header interval_coder (bytes ++ (7 ∷ []))
        ≡ some (
          (
            pos 59_999,
            (interval (pos 0) (pos 60_000) ∷ interval (pos 60_000) (pos 120_000) ∷ [], second_late),
          ),
          7 ∷ [],
        ))
decode_windowed_value_header-encode_windowed_value_header_example =
    decode_windowed_value_header-encode_windowed_value_header (pos 59_999)
      (interval (pos 0) (pos 60_000) ∷ interval (pos 60_000) (pos 120_000) ∷ []) interval_coder
      second_late (7 ∷ []) (omega arith) two_windows (omega arith) (omega arith) (omega arith)

abbrev minute_key : List ℕ
minute_key = 1 ∷ 128 ∷ 0 ∷ 0 ∷ 0 ∷ 0 ∷ 0 ∷ 0 ∷ 0 ∷ 128 ∷ 0 ∷ 0 ∷ 0 ∷ 0 ∷ 0 ∷ 234 ∷ 96 ∷ []

to_binary_key→eq_example :
    interval (pos 60_000 -ℤ pos 60_000) (pos 60_000) ≡ interval (pos 0) (pos 60_000)
unfolding ◌-ℤ◌ to_binary_key flare_db.Coders.Timestamp.flip_sign flare_db.Coders.Varint.to_u64
to_binary_key→eq_example =
    to_binary_key→eq (interval (pos 60_000 -ℤ pos 60_000) (pos 60_000))
      (interval (pos 0) (pos 60_000)) minute_key (omega arith, omega arith)
      (omega arith, omega arith) refl refl

bytes_ltb-to_binary_key_example :
    (j : List ℕ) × (k : List ℕ) × (to_binary_key (interval (negsuc 4) (pos 7)) ≡ some j)
    × (to_binary_key (interval (pos 3) (pos 5)) ≡ some k)
    × (bytes_ltb j k ≡ true)
bytes_ltb-to_binary_key_example =
    bytes_ltb-to_binary_key (negsuc 4) (pos 7) (pos 3) (pos 5) (omega arith) (omega arith)
      (omega arith) (omega arith)
