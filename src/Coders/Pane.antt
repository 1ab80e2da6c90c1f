-- ===== src/Coders/Pane.antt =====
-- `PaneInfo` and its coder in flaredb/src/coders/primitives.rs, and the pane that a firing gets in
-- flaredb/src/engine/trigger.rs.
use flare_db.Base.{
  ℕ, zero, suc, ◌+◌, ◌*◌, ◌/◌, ◌%◌, ◌<◌, ◌≡◌, refl, ◌∙◌, ℤ, pos, negsuc, Bool, true, false, not,
  Option, none, some, List, [], ◌∷◌, ◌++◌, append_append, leb, ◌==◌, if◌then◌else◌, eqb_ℤ, eqb_ℤ→eq,
  eqb_ℤ_refl, Bool-cases, inl, inr, arith,
}
use flare_db.Coders.Varint.{
  IsI64, encode_signed_varint, decode_signed_varint, decode_signed_varint-encode_signed_varint,
}

pub data PaneTiming : Type 0 where
  early on_time late unknown : PaneTiming

unfoldable pub from_bits : ℕ → PaneTiming
from_bits zero = early
from_bits (suc zero) = on_time
from_bits (suc (suc zero)) = late
from_bits (suc (suc (suc n))) = unknown

unfoldable pub bits : PaneTiming → ℕ
bits early = 0
bits on_time = 1
bits late = 2
bits unknown = 3

-- `timing == PaneTiming::Early`
abbrev pub is_early : PaneTiming → Bool
is_early early = true
is_early _ = false

pub record PaneInfo : Type 0 where
  pub is_first : Bool
  pub is_last : Bool
  pub timing : PaneTiming
  pub index : ℤ
  pub non_speculative_index : ℤ

abbrev pub no_firing : PaneInfo
no_firing = record {
  is_first = true;
  is_last = true;
  timing = unknown;
  index = pos 0;
  non_speculative_index = pos 0;
}

abbrev pub on_time_firing : PaneInfo
on_time_firing = record {
  is_first = true;
  is_last = true;
  timing = on_time;
  index = pos 0;
  non_speculative_index = pos 0;
}

unfoldable pub pane_info : PaneTiming → ℤ → Bool → Bool → PaneInfo
pane_info timing index is_first is_last = record {
  is_first = is_first;
  is_last = is_last;
  timing = timing;
  index = index;
  non_speculative_index = if is_early timing then negsuc 0 else index;
}

unfoldable pub pane_timing : Bool → Bool → PaneTiming
pane_timing end_of_window is_first_firing =
    if not end_of_window then early else if is_first_firing then on_time else late

abbrev pub flag : Bool → ℕ → ℕ
flag true bit = bit
flag false bit = 0

-- The index that a decoder derives when none is written.
abbrev pub derived_index : PaneTiming → ℤ → ℤ
derived_index timing index = if is_early timing then negsuc 0 else index

-- The bits that `|=` sets are clear before, so that it adds.
unfoldable pub first_byte : PaneInfo → ℕ
unfolding bits
first_byte pane =
    bits pane.timing * 4
    + flag pane.is_first 1
    + flag pane.is_last 2
    + (if not (eqb_ℤ pane.non_speculative_index (derived_index pane.timing pane.index))
        then 32
        else if not (eqb_ℤ pane.index (pos 0))
        then 16
        else 0)

unfoldable pub encode_pane_info : PaneInfo → List ℕ
unfolding first_byte encode_signed_varint
encode_pane_info pane =
    first_byte pane
    ∷ (if not (eqb_ℤ pane.non_speculative_index (derived_index pane.timing pane.index))
        then encode_signed_varint pane.index ++ encode_signed_varint pane.non_speculative_index
        else if not (eqb_ℤ pane.index (pos 0))
        then encode_signed_varint pane.index
        else [])

-- The index that is written if the encoding has one, else a value derived without reading.
abbrev pub read_or : Bool → ℤ → List ℕ → Option (ℤ × List ℕ)
read_or true derived buf = decode_signed_varint buf
read_or false derived buf = some (derived, buf)

abbrev pub with_index :
    (ℤ → List ℕ → Option (PaneInfo × List ℕ)) → Option (ℤ × List ℕ) → Option (PaneInfo × List ℕ)
with_index k none = none
with_index k (some (index, buf)) = k index buf

-- The indices that follow the byte, with what the byte says.
unfoldable pub decode_rest : ℕ → PaneTiming → Bool → Bool → List ℕ → Option (PaneInfo × List ℕ)
unfolding decode_signed_varint
decode_rest encoding timing is_first is_last buf =
    with_index
      (λ index rest.
        with_index
          (λ non_speculative_index end. some (
            record {
              is_first = is_first;
              is_last = is_last;
              timing = timing;
              index = index;
              non_speculative_index = non_speculative_index;
            },
            end,
          ))
          (read_or (leb 2 encoding) (derived_index timing index) rest))
      (read_or (leb 1 encoding) (pos 0) buf)

unfoldable pub decode_pane_info : List ℕ → Option (PaneInfo × List ℕ)
unfolding from_bits decode_rest
decode_pane_info [] = none
decode_pane_info (byte ∷ buf) =
    decode_rest (byte / 16) (from_bits (byte / 4 % 4)) (not (byte % 2 == 0))
      (not (byte / 2 % 2 == 0)) buf

from_bits-bits : (t : PaneTiming) → from_bits (bits t) ≡ t
unfolding from_bits bits
from_bits-bits early = refl
from_bits-bits on_time = refl
from_bits-bits late = refl
from_bits-bits unknown = refl

bits-bound : (t : PaneTiming) → bits t < 4
unfolding bits
bits-bound early = omega arith
bits-bound on_time = omega arith
bits-bound late = omega arith
bits-bound unknown = omega arith

-- The byte with the encoding `k` in its upper half.
abbrev byte_of : ℕ → Bool → Bool → ℕ → ℕ
byte_of t first last k = t * 4 + flag first 1 + flag last 2 + k * 16

timing_bits : (t : ℕ) (first last : Bool) (k : ℕ) → t < 4 → byte_of t first last k / 4 % 4 ≡ t
timing_bits t true true k h = omega arith
timing_bits t true false k h = omega arith
timing_bits t false true k h = omega arith
timing_bits t false false k h = omega arith

first_bit : (t : ℕ) (first last : Bool) (k : ℕ) → not (byte_of t first last k % 2 == 0) ≡ first
first_bit t true true k = ground arith
first_bit t true false k = ground arith
first_bit t false true k = ground arith
first_bit t false false k = ground arith

last_bit : (t : ℕ) (first last : Bool) (k : ℕ) → not (byte_of t first last k / 2 % 2 == 0) ≡ last
last_bit t true true k = ground arith
last_bit t true false k = ground arith
last_bit t false true k = ground arith
last_bit t false false k = ground arith

encoding_bits : (t : ℕ) (first last : Bool) (k : ℕ) → t < 4 → byte_of t first last k / 16 ≡ k
encoding_bits t true true k h = omega arith
encoding_bits t true false k h = omega arith
encoding_bits t false true k h = omega arith
encoding_bits t false false k h = omega arith

-- What the decoder makes of a byte that `byte_of` built.
decode_byte :
    (t : PaneTiming) (first last : Bool) (k : ℕ) (buf : List ℕ)
    → decode_pane_info (byte_of (bits t) first last k ∷ buf) ≡ decode_rest k t first last buf
unfolding decode_pane_info
decode_byte t first last k buf =
    rw
      (
        encoding_bits (bits t) first last k (bits-bound t),
        timing_bits (bits t) first last k (bits-bound t),
        from_bits-bits t,
        first_bit (bits t) first last k,
        last_bit (bits t) first last k,
      )
      refl

module _ (t : PaneTiming) (first last : Bool) (i n : ℤ) (buf : List ℕ) (i_fits : IsI64 i)
    (n_fits : IsI64 n) where
  abbrev pane : PaneInfo
  pane = record {
    is_first = first;
    is_last = last;
    timing = t;
    index = i;
    non_speculative_index = n;
  }

  both_read :
      decode_rest 2 t first last (encode_signed_varint i ++ (encode_signed_varint n ++ buf))
      ≡ some (pane, buf)
  unfolding decode_rest
  both_read =
      rw
        (
          decode_signed_varint-encode_signed_varint i (encode_signed_varint n ++ buf) i_fits,
          decode_signed_varint-encode_signed_varint n buf n_fits,
        )
        refl

  one_read :
      n ≡ derived_index t i
      → decode_rest 1 t first last (encode_signed_varint i ++ buf) ≡ some (pane, buf)
  unfolding decode_rest
  one_read e = rw (decode_signed_varint-encode_signed_varint i buf i_fits, e) refl

  none_read : n ≡ derived_index t i → i ≡ pos 0 → decode_rest 0 t first last buf ≡ some (pane, buf)
  unfolding decode_rest
  none_read e z = rw (e, z) refl

  round_trip : decode_pane_info (encode_pane_info pane ++ buf) ≡ some (pane, buf)
  unfolding encode_pane_info first_byte
  round_trip = elim (Bool-cases (eqb_ℤ n (derived_index t i))) [
    | inl e ↦ elim (Bool-cases (eqb_ℤ i (pos 0))) [
      | inl z ↦
          rw (e, z) (decode_byte t first last 0 buf ∙ none_read (eqb_ℤ→eq _ _ e) (eqb_ℤ→eq _ _ z))
      | inr z ↦
          rw (e, z)
            (decode_byte t first last 1 (encode_signed_varint i ++ buf) ∙ one_read (eqb_ℤ→eq _ _ e))
    ]
    | inr e ↦
        rw (e, append_append (encode_signed_varint i) (encode_signed_varint n) buf)
          (decode_byte t first last 2 (encode_signed_varint i ++ (encode_signed_varint n ++ buf))
            ∙ both_read)
  ]

-- Decoding an encoded pane, with anything after it, gives the pane back and leaves what came after
-- it, for a pane whose two indices an i64 holds.
pub decode_pane_info-encode_pane_info :
    (pane : PaneInfo) (buf : List ℕ)
    → IsI64 pane.index
    → IsI64 pane.non_speculative_index
    → decode_pane_info (encode_pane_info pane ++ buf) ≡ some (pane, buf)
decode_pane_info-encode_pane_info pane buf h k =
    round_trip pane.timing pane.is_first pane.is_last pane.index pane.non_speculative_index buf h k

-- The pane that `pane_info` builds for a firing, whatever its timing, is written as its first byte and
-- its index, and as the byte alone for the index 0: its non-speculative index is never written.
pub encode_pane_info-pane_info :
    (ended first is_first is_last : Bool) (index : ℤ)
    → encode_pane_info (pane_info (pane_timing ended first) index is_first is_last)
      ≡ first_byte (pane_info (pane_timing ended first) index is_first is_last)
        ∷ (if eqb_ℤ index (pos 0) then [] else encode_signed_varint index)
unfolding encode_pane_info pane_info
encode_pane_info-pane_info ended first is_first is_last index =
    let same = eqb_ℤ_refl (derived_index (pane_timing ended first) index) in
    elim (Bool-cases (eqb_ℤ index (pos 0))) [
      | inl e ↦ rw (same, e) refl
      | inr e ↦ rw (same, e) refl
    ]
