-- ===== src/Coders/Window.antt =====
-- Windows and their coders in flaredb/src/coders/primitives.rs. A panic is `none`. The difference and
-- the sum of two bounds do not wrap here.
use flare_db.Base.{
  ℕ, ◌<◌, ◌≡◌, refl, sym, ◌∙◌, ℤ, ◌-ℤ◌, -ℤ_parts, eq_of_parts, String, false, Option, none, some,
  List, [], ◌++◌, append_append, take-length, drop-length, length-append, length, take, drop, ltb,
  if◌then◌else◌, arith,
}
use flare_db.Base.Text.{str_eq, str_eq_refl}
use flare_db.Coders.Varint.{
  IsI64, encode_varint, decode_varint, encode_signed_varint, decode_signed_varint,
  decode_varint-encode_varint, decode_signed_varint-encode_signed_varint,
}
use flare_db.Coders.Timestamp.{
  encode_timestamp_millis, decode_timestamp_millis, decode_timestamp_millis-encode_timestamp_millis,
}

pub data BeamWindow : Type 0 where
  global : BeamWindow
  interval : ℤ → ℤ → BeamWindow
  opaque : String → List ℕ → BeamWindow

pub data WindowCoder : Type 0 where
  global_coder : WindowCoder
  interval_coder : WindowCoder
  opaque_length_prefixed : String → WindowCoder

-- `encode_window` panics on a window that does not match the coder.
unfoldable pub encode_window : WindowCoder → BeamWindow → Option (List ℕ)
encode_window global_coder global = some []
encode_window interval_coder (interval start_millis end_millis) =
    some (encode_timestamp_millis end_millis ++ encode_signed_varint (end_millis -ℤ start_millis))
encode_window (opaque_length_prefixed inner) (opaque coder_id bytes) =
    if str_eq coder_id inner then some (encode_varint (length bytes) ++ bytes) else none
encode_window _ _ = none

abbrev pub interval_from : ℤ → Option (ℤ × List ℕ) → Option (BeamWindow × List ℕ)
interval_from end_millis none = none
interval_from end_millis (some (span_millis, buf)) =
    some (interval (end_millis -ℤ span_millis) end_millis, buf)

abbrev pub interval_after : Option (ℤ × List ℕ) → Option (BeamWindow × List ℕ)
interval_after none = none
interval_after (some (end_millis, buf)) = interval_from end_millis (decode_signed_varint buf)

abbrev pub opaque_after : String → Option (ℕ × List ℕ) → Option (BeamWindow × List ℕ)
opaque_after inner none = none
opaque_after inner (some (len, buf)) =
    if ltb (length buf) len then none else some (opaque inner (take len buf), drop len buf)

unfoldable pub decode_one_window : WindowCoder → List ℕ → Option (BeamWindow × List ℕ)
decode_one_window global_coder buf = some (global, buf)
decode_one_window interval_coder buf = interval_after (decode_timestamp_millis buf)
decode_one_window (opaque_length_prefixed inner) buf = opaque_after inner (decode_varint buf)

-- A window that the coder writes, with the bounds and the length that the wire can hold.
abbrev pub IsEncodable : WindowCoder → BeamWindow → Type 0
IsEncodable global_coder global = Unit {0}
IsEncodable interval_coder (interval start_millis end_millis) =
    IsI64 end_millis × IsI64 (end_millis -ℤ start_millis)
IsEncodable (opaque_length_prefixed inner) (opaque coder_id bytes) =
    (coder_id ≡ inner) × (length bytes < 18_446_744_073_709_551_616)
IsEncodable _ _ = ⊥

sub_sub : (a b : ℤ) → a -ℤ (a -ℤ b) ≡ b
sub_sub a b = eq_of_parts (a -ℤ (a -ℤ b)) b (omega (arith, -ℤ_parts a (a -ℤ b), -ℤ_parts a b))

interval_round_trip :
    (start_millis end_millis : ℤ) (buf : List ℕ)
    → IsI64 end_millis
    → IsI64 (end_millis -ℤ start_millis)
    → interval_after (
        decode_timestamp_millis (
          (encode_timestamp_millis end_millis ++ encode_signed_varint (end_millis -ℤ start_millis))
          ++ buf))
      ≡ some (interval start_millis end_millis, buf)
interval_round_trip start_millis end_millis buf h k =
    let span = encode_signed_varint (end_millis -ℤ start_millis) in
    (λ i.
      interval_after
        (decode_timestamp_millis (append_append (encode_timestamp_millis end_millis) span buf i)))
    ∙ (λ i.
        interval_after
          (decode_timestamp_millis-encode_timestamp_millis end_millis (span ++ buf) h i))
    ∙ (λ i.
        interval_from end_millis
          (decode_signed_varint-encode_signed_varint (end_millis -ℤ start_millis) buf k i))
    ∙ (λ i. some (interval (sub_sub end_millis start_millis i) end_millis, buf))

opaque_round_trip :
    (inner : String) (bytes buf : List ℕ)
    → length bytes < 18_446_744_073_709_551_616
    → opaque_after inner (decode_varint ((encode_varint (length bytes) ++ bytes) ++ buf))
      ≡ some (opaque inner bytes, buf)
opaque_round_trip inner bytes buf h =
    let enough : ltb (length (bytes ++ buf)) (length bytes) ≡ false =
      ground (arith, length-append bytes buf) in
    (λ i.
      opaque_after inner (decode_varint (append_append (encode_varint (length bytes)) bytes buf i)))
    ∙ (λ i. opaque_after inner (decode_varint-encode_varint (length bytes) (bytes ++ buf) h i))
    ∙ rw (enough, take-length bytes buf, drop-length bytes buf) refl

-- A window that matches its coder, with bounds and a length that the wire can hold, is encoded, and
-- decoding its bytes, with anything after them, gives the window back and leaves what came after it.
pub decode_one_window-encode_window :
    (coder : WindowCoder) (window : BeamWindow) (buf : List ℕ)
    → IsEncodable coder window
    → (bytes : List ℕ) × (encode_window coder window ≡ some bytes)
      × (decode_one_window coder (bytes ++ buf) ≡ some (window, buf))
unfolding encode_window decode_one_window
decode_one_window-encode_window global_coder global buf h = ([], refl, refl)
decode_one_window-encode_window interval_coder (interval start_millis end_millis) buf h =
    (_, refl, interval_round_trip start_millis end_millis buf h.0 h.1)
decode_one_window-encode_window (opaque_length_prefixed inner) (opaque coder_id bytes) buf h = (
  encode_varint (length bytes) ++ bytes,
  rw (h.0, str_eq_refl inner) refl,
  opaque_round_trip inner bytes buf h.1 ∙ sym (λ i. some (opaque (h.0 i) bytes, buf)),
)
decode_one_window-encode_window _ _ buf h = elim h [ ]
