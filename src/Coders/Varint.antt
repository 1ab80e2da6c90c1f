-- ===== src/Coders/Varint.antt =====
-- The varints of flaredb/src/coders/primitives.rs. A buffer is a list of bytes, and a panic, which is
-- a read past the end or a shift by 64 bits and more, is `none`.
use flare_db.Base.{
  ℕ, zero, suc, ◌+◌, ◌*◌, ◌^◌, ◌/◌, ◌%◌, ◌<◌, ◌≡◌, refl, ◌∙◌, ℤ, true, false, Option, none, some,
  List, [], ◌∷◌, ◌++◌, ltb, leb, ◌==◌, if◌then◌else◌, Bool-cases, inl, inr, arith,
}
unfoldable pub use flare_db.Base.I64.{IsI64, to_u64, from_u64}
pub use flare_db.Base.I64.{from_u64-to_u64, to_u64-bound}
use native.Mathlib.Nat.{pow-suc, add-mul, mul_assoc, mul_comm}

-- The loop of `encode_varint`, on fuel. The bit 0x80 is clear in a value below 128, so that `|=` adds
-- it.
unfoldable pub encode_from : ℕ → ℕ → List ℕ
encode_from zero value = []
encode_from (suc fuel) value =
    let rest = encode_from fuel (value / 128) in
    if value / 128 == 0 then (value % 128) ∷ [] else (value % 128 + 128) ∷ rest

-- Ten groups of seven bits hold a u64.
unfoldable pub encode_varint : ℕ → List ℕ
unfolding encode_from
encode_varint value = encode_from 10 value

-- The loop of `decode_varint`. The bits of `result` lie below `shift`, so that `|=` adds.
unfoldable pub decode_from : ℕ → ℕ → List ℕ → Option (ℕ × List ℕ)
decode_from shift result [] = none
decode_from shift result (byte ∷ buf) =
    let next = result + ((byte % 128) * 2 ^ shift) % 18_446_744_073_709_551_616 in
    let rest = decode_from (shift + 7) next buf in
    if leb 64 shift then none else if ltb byte 128 then some (next, buf) else rest

unfoldable pub decode_varint : List ℕ → Option (ℕ × List ℕ)
unfolding decode_from
decode_varint buf = decode_from 0 0 buf

unfoldable pub encode_signed_varint : ℤ → List ℕ
unfolding encode_varint to_u64
encode_signed_varint value = encode_varint (to_u64 value)

abbrev pub signed : Option (ℕ × List ℕ) → Option (ℤ × List ℕ)
signed none = none
signed (some (n, buf)) = some (from_u64 n, buf)

unfoldable pub decode_signed_varint : List ℕ → Option (ℤ × List ℕ)
unfolding decode_varint
decode_signed_varint buf = signed (decode_varint buf)

split_128 : (v p : ℕ) → v * p ≡ (v % 128) * p + (v / 128) * (p * 128)
split_128 v p =
    let v_eq : v ≡ v % 128 + (v / 128) * 128 = omega arith in
    (λ k. v_eq k * p) ∙ spread (v % 128) (v / 128) p
  where
    spread : (r q p : ℕ) → (r + q * 128) * p ≡ r * p + q * (p * 128)
    spread r q p = rw (add-mul r (q * 128) p, mul_assoc q 128 p, mul_comm 128 p) refl

pow_next : (s : ℕ) → 2 ^ (s + 7) ≡ 2 ^ s * 128
pow_next s =
    let e : s + 7 ≡ suc (suc (suc (suc (suc (suc (suc s)))))) = omega arith in
    rw (e, pow-suc, pow-suc, pow-suc, pow-suc, pow-suc, pow-suc, pow-suc) (omega arith)

-- One byte of the loop, last or not.
last_byte :
    (shift result value : ℕ) (buf : List ℕ)
    → shift < 64
    → value < 128
    → result + value * 2 ^ shift < 18_446_744_073_709_551_616
    → decode_from shift result (value ∷ buf) ≡ some (result + value * 2 ^ shift, buf)
unfolding decode_from
last_byte shift result value buf h k m =
    let in_range : leb 64 shift ≡ false = ground arith in
    let last : ltb value 128 ≡ true = ground arith in
    let low : value % 128 ≡ value = omega arith in
    let fits : (value * 2 ^ shift) % 18_446_744_073_709_551_616 ≡ value * 2 ^ shift = omega arith in
    rw (in_range, last, low, fits) refl

next_byte :
    (shift result low : ℕ) (buf : List ℕ)
    → shift < 64
    → low < 128
    → result + low * 2 ^ shift < 18_446_744_073_709_551_616
    → decode_from shift result ((low + 128) ∷ buf)
      ≡ decode_from (shift + 7) (result + low * 2 ^ shift) buf
unfolding decode_from
next_byte shift result low buf h k m =
    let in_range : leb 64 shift ≡ false = ground arith in
    let more : ltb (low + 128) 128 ≡ false = ground arith in
    let masked : (low + 128) % 128 ≡ low = omega arith in
    let fits : (low * 2 ^ shift) % 18_446_744_073_709_551_616 ≡ low * 2 ^ shift = omega arith in
    rw (in_range, more, masked, fits) refl

-- Decoding what a value left of `shift` was encoded to.
decode_from-encode_from :
    (fuel shift result value : ℕ) (buf : List ℕ)
    → value < 128 ^ suc fuel
    → shift + 7 * fuel < 64
    → result + value * 2 ^ shift < 18_446_744_073_709_551_616
    → decode_from shift result (encode_from (suc fuel) value ++ buf)
      ≡ some (result + value * 2 ^ shift, buf)
unfolding encode_from
decode_from-encode_from zero shift result value buf h l m =
    let last : (value / 128 == 0) ≡ true = ground arith in
    let low : value % 128 ≡ value = omega arith in
    rw (last, low) (last_byte shift result value buf (omega arith) (omega arith) m)
decode_from-encode_from (suc fuel) shift result value buf h l m =
    elim (Bool-cases (value / 128 == 0)) [
      | inl last ↦
          let small : value < 128 = ground (arith, last) in
          let low : value % 128 ≡ value = omega arith in
          rw (last, low) (last_byte shift result value buf (omega arith) small m)
      | inr more ↦
          let p = 2 ^ shift in
          let split = split_128 value (2 ^ shift) in
          let shorter : value / 128 < 128 ^ suc fuel =
            (let h' = rw (pow-suc 128 (suc fuel)) at h in omega arith) in
          let rest : (result + (value % 128) * 2 ^ shift) + (value / 128) * 2 ^ (shift + 7)
              ≡ result + value * 2 ^ shift =
            rw (pow_next shift) (omega (arith, split)) in
          rw (more) (
            next_byte shift result (value % 128) (encode_from (suc fuel) (value / 128) ++ buf)
              (omega arith) (omega arith) (omega (arith, split))
            ∙ decode_from-encode_from fuel (shift + 7) (result + (value % 128) * 2 ^ shift)
                (value / 128) buf shorter (omega arith) (rw (rest) m)
            ∙ (λ k. some (rest k, buf)))
    ]

-- Decoding the varint of a u64, with anything after it, gives the number back and leaves what came
-- after it.
pub decode_varint-encode_varint :
    (value : ℕ) (buf : List ℕ)
    → value < 18_446_744_073_709_551_616
    → decode_varint (encode_varint value ++ buf) ≡ some (value, buf)
unfolding decode_varint encode_varint
decode_varint-encode_varint value buf h =
    decode_from-encode_from 9 0 0 value buf (omega arith) (omega arith) (omega arith)
    ∙ (λ k. some (same k, buf))
  where
    same : 0 + value * 2 ^ 0 ≡ value
    same = omega arith

-- Decoding the varint of an i64, with anything after it, gives the number back and leaves what came
-- after it.
pub decode_signed_varint-encode_signed_varint :
    (value : ℤ) (buf : List ℕ)
    → IsI64 value
    → decode_signed_varint (encode_signed_varint value ++ buf) ≡ some (value, buf)
unfolding decode_signed_varint encode_signed_varint
decode_signed_varint-encode_signed_varint value buf h =
    (λ k. signed (decode_varint-encode_varint (to_u64 value) buf (to_u64-bound value h) k))
    ∙ (λ k. some (from_u64-to_u64 value h k, buf))
