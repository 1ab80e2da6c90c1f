-- ===== src/Coders/Timestamp.antt =====
-- The timestamps of flaredb/src/coders/primitives.rs: eight bytes, most significant first, with the
-- sign bit flipped.
use flare_db.Base.{
  ℕ, zero, suc, ◌+◌, ◌-◌, ◌*◌, ◌/◌, ◌%◌, ◌^◌, ◌<◌, ◌≡◌, refl, sym, ap, ◌∙◌, ℤ, Option, none, some,
  some_eq, none≢some, List, [], ◌∷◌, ◌++◌, append_append, length, take, drop, take-length,
  drop-length, ltb, if◌then◌else◌, arith,
}
use flare_db.Coders.Varint.{IsI64, to_u64, from_u64, from_u64-to_u64, to_u64-bound}
use native.Mathlib.Nat.{pow-suc}

-- The bytes of a number, most significant first: `put_u64` writes eight.
unfoldable pub put_be : ℕ → ℕ → List ℕ
put_be zero value = []
put_be (suc count) value = put_be count (value / 256) ++ ((value % 256) ∷ [])

-- `get_u64` reads eight bytes, and panics if fewer are left.
unfoldable pub get_be : ℕ → ℕ → List ℕ → Option (ℕ × List ℕ)
get_be zero result buf = some (result, buf)
get_be (suc count) result [] = none
get_be (suc count) result (byte ∷ buf) = get_be count (result * 256 + byte) buf

-- `value ^ 0x8000_0000_0000_0000`
unfoldable pub flip_sign : ℕ → ℕ
flip_sign value =
    if ltb value 9_223_372_036_854_775_808
    then value + 9_223_372_036_854_775_808
    else value - 9_223_372_036_854_775_808

unfoldable pub encode_timestamp_millis : ℤ → List ℕ
unfolding put_be
encode_timestamp_millis timestamp = put_be 8 (flip_sign (to_u64 timestamp))

abbrev pub unshifted : Option (ℕ × List ℕ) → Option (ℤ × List ℕ)
unshifted none = none
unshifted (some (shifted, buf)) = some (from_u64 (flip_sign shifted), buf)

unfoldable pub decode_timestamp_millis : List ℕ → Option (ℤ × List ℕ)
unfolding get_be
decode_timestamp_millis buf = unshifted (get_be 8 0 buf)

pub flip_flip :
    (value : ℕ) → value < 18_446_744_073_709_551_616 → flip_sign (flip_sign value) ≡ value
unfolding flip_sign
flip_flip value h = ground arith

pub flip-bound :
    (value : ℕ) → value < 18_446_744_073_709_551_616 → flip_sign value < 18_446_744_073_709_551_616
unfolding flip_sign
flip-bound value h = ground arith

-- Reading one byte more.
get_be_last :
    (count result r byte : ℕ) (bytes buf : List ℕ)
    → get_be count result bytes ≡ some (r, byte ∷ buf)
    → get_be (suc count) result bytes ≡ some (r * 256 + byte, buf)
unfolding get_be
get_be_last zero result r byte bytes buf h =
    let p = some_eq (result, bytes) (r, byte ∷ buf) h in λ k. get_be (suc zero) (p k).0 (p k).1
get_be_last (suc count) result r byte [] buf h = absurd (none≢some none _ refl h)
get_be_last (suc count) result r byte (b ∷ bytes) buf h =
    get_be_last count (result * 256 + b) r byte bytes buf h

pub get_be-put_be :
    (count value : ℕ) (buf : List ℕ)
    → value < 256 ^ count
    → get_be count 0 (put_be count value ++ buf) ≡ some (value, buf)
unfolding put_be get_be
get_be-put_be zero value buf h = (λ k. some (nothing k, buf))
  where
    nothing : 0 ≡ value
    nothing = omega arith
get_be-put_be (suc count) value buf h =
    let shorter : value / 256 < 256 ^ count =
      (let h' = rw (pow-suc 256 count) at h in omega arith) in
    let whole : (value / 256) * 256 + value % 256 ≡ value = omega arith in
    (λ k.
      get_be (suc count) 0 (append_append (put_be count (value / 256)) ((value % 256) ∷ []) buf k))
    ∙ get_be_last count 0 (value / 256) (value % 256) _ buf
        (get_be-put_be count (value / 256) ((value % 256) ∷ buf) shorter)
    ∙ (λ k. some (whole k, buf))

-- Byte strings behind their lengths in four bytes are told apart.
pub same_prefixed :
    (p q x y : List ℕ)
    → length p < 4_294_967_296
    → length q < 4_294_967_296
    → put_be 4 (length p) ++ (p ++ x) ≡ put_be 4 (length q) ++ (q ++ y)
    → (p ≡ q) × (x ≡ y)
same_prefixed p q x y hp hq h =
    let pair : (length p, p ++ x) ≡ (length q, q ++ y) = some_eq _ _ (
      sym (get_be-put_be 4 (length p) (p ++ x) (omega arith))
      ∙ ap (get_be 4 0) h
      ∙ get_be-put_be 4 (length q) (q ++ y) (omega arith)) in
    (
      sym (take-length p x) ∙ (λ k. take (pair k).0 (pair k).1) ∙ take-length q y,
      sym (drop-length p x) ∙ (λ k. drop (pair k).0 (pair k).1) ∙ drop-length q y,
    )

-- Decoding the timestamp of an i64, with anything after it, gives the timestamp back and leaves what
-- came after it.
pub decode_timestamp_millis-encode_timestamp_millis :
    (timestamp : ℤ) (buf : List ℕ)
    → IsI64 timestamp
    → decode_timestamp_millis (encode_timestamp_millis timestamp ++ buf) ≡ some (timestamp, buf)
unfolding decode_timestamp_millis encode_timestamp_millis
decode_timestamp_millis-encode_timestamp_millis timestamp buf h =
    let bound = to_u64-bound timestamp h in
    (λ k.
      unshifted (
        get_be-put_be 8 (flip_sign (to_u64 timestamp)) buf (flip-bound (to_u64 timestamp) bound) k))
    ∙ (λ k. some (from_u64 (flip_flip (to_u64 timestamp) bound k), buf))
    ∙ (λ k. some (from_u64-to_u64 timestamp h k, buf))
