-- ===== src/Coders/Bytes.antt =====
-- The length-delimited byte strings of flaredb/src/coders/primitives.rs: `BytesCoder`, `PickleCoder`
-- and `LengthPrefixCoder` write a varint length and the bytes, and read them back by
-- `decode_length_delimited`.
use flare_db.Base.{
  ℕ, ◌<◌, ◌≡◌, refl, sym, ap, ◌∙◌, true, false, Option, none, some, List, ◌++◌, ltb, length, take,
  drop, append_append, take-length, drop-length, length-append, if◌then◌else◌, arith,
}
use flare_db.Coders.Varint.{encode_varint, decode_varint, decode_varint-encode_varint}

-- What a read gives: the bytes with the rest of the buffer, the error for a declared length that
-- exceeds the remaining bytes, with the buffer as the error leaves it, or the panic of a length that
-- is cut off.
pub data Decoded : Type 0 where
  done : List ℕ → List ℕ → Decoded
  exceeds : ℕ → ℕ → List ℕ → Decoded
  panic : Decoded

unfoldable pub encode_bytes : List ℕ → List ℕ
encode_bytes val = encode_varint (length val) ++ val

abbrev pub copy_to_slice : Option (ℕ × List ℕ) → Decoded
copy_to_slice none = panic
copy_to_slice (some (len, buf)) =
    if ltb (length buf) len
    then exceeds len (length buf) buf
    else done (take len buf) (drop len buf)

-- A `usize` holds every u64, so that the conversion of the length does not fail.
unfoldable pub decode_length_delimited : List ℕ → Decoded
decode_length_delimited buf = copy_to_slice (decode_varint buf)

-- Reading back bytes that were written with their length, with anything after them, gives the bytes
-- and leaves what came after them, for a length that a u64 holds.
pub decode_length_delimited-encode_bytes :
    (val buf : List ℕ)
    → length val < 18_446_744_073_709_551_616
    → decode_length_delimited (encode_bytes val ++ buf) ≡ done val buf
unfolding decode_length_delimited encode_bytes
decode_length_delimited-encode_bytes val buf h =
    let enough : ltb (length (val ++ buf)) (length val) ≡ false =
      ground (arith, length-append val buf) in
    (λ k. copy_to_slice (decode_varint (append_append (encode_varint (length val)) val buf k)))
    ∙ (λ k. copy_to_slice (decode_varint-encode_varint (length val) (val ++ buf) h k))
    ∙ rw (enough, take-length val buf, drop-length val buf) refl

-- After a declared length that a u64 holds, a read gives exactly as many bytes as were declared and
-- leaves what comes after them, and if fewer bytes are left it is an error that names both numbers and
-- leaves the buffer behind the declared length.
pub decode_length_delimited-encode_varint :
    (len : ℕ) (buf : List ℕ)
    → len < 18_446_744_073_709_551_616
    → ((val rest : List ℕ)
        → length val ≡ len
        → buf ≡ val ++ rest
        → decode_length_delimited (encode_varint len ++ buf) ≡ done val rest)
      × (length buf < len
          → decode_length_delimited (encode_varint len ++ buf) ≡ exceeds len (length buf) buf)
unfolding decode_length_delimited encode_bytes
decode_length_delimited-encode_varint len buf h = (
  λ val rest same split.
      let fits : length val < 18_446_744_073_709_551_616 = rw (sym same) at h in
      (λ k. decode_length_delimited (encode_varint (sym same k) ++ split k))
      ∙ sym (ap decode_length_delimited (append_append (encode_varint (length val)) val rest))
      ∙ decode_length_delimited-encode_bytes val rest fits,
  λ short.
      let less : ltb (length buf) len ≡ true = ground arith in
      (λ i. copy_to_slice (decode_varint-encode_varint len buf h i)) ∙ rw (less) refl,
)
