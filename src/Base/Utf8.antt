-- ===== src/Base/Utf8.antt =====
-- Rust's `str::as_bytes`: the UTF-8 of a string, and that it tells strings apart.
use Prim.Native.Nat.{ℕ, ◌+◌, ◌-◌, ◌*◌, ◌/◌, ◌%◌}
use Prim.Native.Char.{code}
use Prim.Native.String.{String}
use mathlib.Core.Path.{◌≡◌, refl, sym, ap, ◌∙◌}
use mathlib.Core.Option.{Option, none, some}
use mathlib.Core.List.{List, [], ◌∷◌, ◌++◌}
use native.Mathlib.Omega.{arith}
use text.Mathlib.TextEquality.{Char-path}
use flare_db.Base.Tests.{ltb, if◌then◌else◌, some_eq, none≢some}

-- The bytes of one code point.
unfoldable pub encode_code : ℕ → List ℕ
encode_code c =
    if ltb c 128
    then c ∷ []
    else if ltb c 2048
    then (192 + c / 64) ∷ (128 + c % 64) ∷ []
    else if ltb c 65_536
    then (224 + c / 4096) ∷ (128 + c / 64 % 64) ∷ (128 + c % 64) ∷ []
    else (240 + c / 262_144) ∷ (128 + c / 4096 % 64) ∷ (128 + c / 64 % 64) ∷ (128 + c % 64) ∷ []

unfoldable pub as_bytes : String → List ℕ
unfolding encode_code
as_bytes String.[] = []
as_bytes (String.◌∷◌ c s) = encode_code (code c) ++ as_bytes s

-- Reads one code point back, with the bytes after it.
unfoldable decode_code : List ℕ → Option (ℕ × List ℕ)
decode_code [] = none
decode_code (b ∷ []) = some (b, [])
decode_code (b ∷ d ∷ []) =
    if ltb b 128 then some (b, d ∷ []) else some ((b - 192) * 64 + (d - 128), [])
decode_code (b ∷ d ∷ e ∷ []) =
    if ltb b 128
    then some (b, d ∷ e ∷ [])
    else if ltb b 224
    then some ((b - 192) * 64 + (d - 128), e ∷ [])
    else some (((b - 224) * 64 + (d - 128)) * 64 + (e - 128), [])
decode_code (b ∷ d ∷ e ∷ f ∷ buf) =
    if ltb b 128
    then some (b, d ∷ e ∷ f ∷ buf)
    else if ltb b 224
    then some ((b - 192) * 64 + (d - 128), e ∷ f ∷ buf)
    else if ltb b 240
    then some (((b - 224) * 64 + (d - 128)) * 64 + (e - 128), f ∷ buf)
    else some ((((b - 240) * 64 + (d - 128)) * 64 + (e - 128)) * 64 + (f - 128), buf)

decode_code-encode_code :
    (c : ℕ) (buf : List ℕ) → decode_code (encode_code c ++ buf) ≡ some (c, buf)
unfolding decode_code encode_code
decode_code-encode_code c [] = ground arith
decode_code-encode_code c (x ∷ []) = ground arith
decode_code-encode_code c (x ∷ y ∷ []) = ground arith
decode_code-encode_code c (x ∷ y ∷ z ∷ buf) = ground arith

first_code :
    (c : ℕ) (buf bytes : List ℕ) → bytes ≡ encode_code c ++ buf → decode_code bytes ≡ some (c, buf)
first_code c buf bytes h = ap decode_code h ∙ decode_code-encode_code c buf

-- Two strings with the same bytes are the same string.
pub as_bytes→eq : (s t : String) → as_bytes s ≡ as_bytes t → s ≡ t
unfolding as_bytes decode_code
as_bytes→eq String.[] String.[] h = refl
as_bytes→eq String.[] (String.◌∷◌ d t) h =
    absurd (none≢some none _ refl (first_code (code d) (as_bytes t) [] h))
as_bytes→eq (String.◌∷◌ c s) String.[] h =
    absurd (none≢some none _ refl (first_code (code c) (as_bytes s) [] (sym h)))
as_bytes→eq (String.◌∷◌ c s) (String.◌∷◌ d t) h =
    let e : (code c, as_bytes s) ≡ (code d, as_bytes t) = some_eq _ _ (
      sym (decode_code-encode_code (code c) (as_bytes s)) ∙ first_code (code d) (as_bytes t) _ h) in
    λ k. String.◌∷◌ (Char-path c d (λ i. (e i).0) k) (as_bytes→eq s t (λ i. (e i).1) k)
