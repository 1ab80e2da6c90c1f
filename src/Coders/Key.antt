-- ===== src/Coders/Key.antt =====
-- `BeamWindow::to_binary_key` of flaredb/src/coders/primitives.rs, the identity by which windows are
-- stored and sorted. A panic is `none`.
use flare_db.Base.{
  ℕ, zero, suc, ◌/◌, ◌%◌, ◌^◌, ◌<◌, ◌≡◌, refl, sym, ap, ◌∙◌, ℤ, ltb_ℤ, eqb_ℤ, Bool, true, false,
  ◌==◌, Option, none, some, some_eq, List, [], ◌∷◌, ◌++◌, append_append, append-nil, length, drop,
  ltb, if◌then◌else◌, arith,
}
use flare_db.Base.Utf8.{as_bytes, as_bytes→eq}
use flare_db.Coders.Varint.{IsI64, to_u64, to_u64-bound}
use flare_db.Coders.Timestamp.{
  put_be, flip_sign, flip-bound, encode_timestamp_millis, decode_timestamp_millis,
  decode_timestamp_millis-encode_timestamp_millis, same_prefixed,
}
use flare_db.Coders.Window.{BeamWindow, global, interval, opaque}
use native.Mathlib.Nat.{pow-suc}

unfoldable pub ordered_i64_bytes : ℤ → List ℕ
unfolding put_be
ordered_i64_bytes value = put_be 8 (flip_sign (to_u64 value))

-- The length of a coder id has to fit in a u32.
unfoldable pub to_binary_key : BeamWindow → Option (List ℕ)
unfolding ordered_i64_bytes
to_binary_key global = some (0 ∷ [])
to_binary_key (interval start_millis end_millis) =
    some (1 ∷ (ordered_i64_bytes start_millis ++ ordered_i64_bytes end_millis))
to_binary_key (opaque coder_id bytes) =
    let id = as_bytes coder_id in
    if ltb (length id) 4_294_967_296
    then some (2 ∷ (put_be 4 (length id) ++ (id ++ bytes)))
    else none

-- The order of byte strings: the first byte that differs decides, and a prefix comes first.
unfoldable pub bytes_ltb : List ℕ → List ℕ → Bool
bytes_ltb [] [] = false
bytes_ltb [] (y ∷ ys) = true
bytes_ltb (x ∷ xs) [] = false
bytes_ltb (x ∷ xs) (y ∷ ys) =
    let rest = bytes_ltb xs ys in if ltb x y then true else if x == y then rest else false

-- Two numbers are compared by their quotients, then by their remainders.
by_digits :
    (x y : ℕ) (rest : Bool)
    → (if ltb (x / 256) (y / 256)
        then true
        else if (x / 256) == (y / 256)
        then (if ltb (x % 256) (y % 256)
            then true
            else if (x % 256) == (y % 256)
            then rest
            else false)
        else false)
      ≡ (if ltb x y then true else if x == y then rest else false)
by_digits x y rest = ground arith

shorter : (count x : ℕ) → x < 256 ^ suc count → x / 256 < 256 ^ count
shorter count x h = let h' = rw (pow-suc 256 count) at h in omega arith

-- Numbers of equally many bytes are in the order of their bytes.
bytes_ltb-put_be :
    (count x y : ℕ) (xs ys : List ℕ)
    → x < 256 ^ count
    → y < 256 ^ count
    → bytes_ltb (put_be count x ++ xs) (put_be count y ++ ys)
      ≡ (if ltb x y then true else if x == y then bytes_ltb xs ys else false)
unfolding put_be bytes_ltb
bytes_ltb-put_be zero x y xs ys hx hy = ground arith
bytes_ltb-put_be (suc count) x y xs ys hx hy =
    (λ k.
      bytes_ltb (append_append (put_be count (x / 256)) ((x % 256) ∷ []) xs k)
        (append_append (put_be count (y / 256)) ((y % 256) ∷ []) ys k))
    ∙ bytes_ltb-put_be count (x / 256) (y / 256) ((x % 256) ∷ xs) ((y % 256) ∷ ys)
        (shorter count x hx) (shorter count y hy)
    ∙ by_digits x y (bytes_ltb xs ys)

flip_ltb :
    (a b : ℤ) (rest : Bool)
    → IsI64 a
    → IsI64 b
    → (if ltb (flip_sign (to_u64 a)) (flip_sign (to_u64 b))
        then true
        else if flip_sign (to_u64 a) == flip_sign (to_u64 b)
        then rest
        else false)
      ≡ (if ltb_ℤ a b then true else if eqb_ℤ a b then rest else false)
unfolding flip_sign to_u64 eqb_ℤ
flip_ltb a b rest ha hb = ground arith

ordered_ltb :
    (a b : ℤ) (xs ys : List ℕ)
    → IsI64 a
    → IsI64 b
    → bytes_ltb (ordered_i64_bytes a ++ xs) (ordered_i64_bytes b ++ ys)
      ≡ (if ltb_ℤ a b then true else if eqb_ℤ a b then bytes_ltb xs ys else false)
unfolding ordered_i64_bytes
ordered_ltb a b xs ys ha hb =
    bytes_ltb-put_be 8 (flip_sign (to_u64 a)) (flip_sign (to_u64 b)) xs ys
      (flip-bound (to_u64 a) (to_u64-bound a ha)) (flip-bound (to_u64 b) (to_u64-bound b hb))
    ∙ flip_ltb a b (bytes_ltb xs ys) ha hb

last_ltb :
    (a b : ℤ)
    → IsI64 a
    → IsI64 b
    → bytes_ltb (ordered_i64_bytes a) (ordered_i64_bytes b) ≡ ltb_ℤ a b
unfolding bytes_ltb eqb_ℤ
last_ltb a b ha hb =
    sym (λ k. bytes_ltb (append-nil (ordered_i64_bytes a) k) (append-nil (ordered_i64_bytes b) k))
    ∙ ordered_ltb a b [] [] ha hb
    ∙ ground arith

-- Two interval windows whose bounds an i64 holds have keys, and the keys are in the order of byte
-- strings exactly when the windows are in the order of their starts and, with equal starts, of their
-- ends.
pub bytes_ltb-to_binary_key :
    (start_a end_a start_b end_b : ℤ)
    → IsI64 start_a
    → IsI64 end_a
    → IsI64 start_b
    → IsI64 end_b
    → (j : List ℕ) × (k : List ℕ) × (to_binary_key (interval start_a end_a) ≡ some j)
      × (to_binary_key (interval start_b end_b) ≡ some k)
      × (bytes_ltb j k ≡ (
          if ltb_ℤ start_a start_b
          then true
          else if eqb_ℤ start_a start_b
          then ltb_ℤ end_a end_b
          else false))
unfolding to_binary_key bytes_ltb
bytes_ltb-to_binary_key start_a end_a start_b end_b hsa hea hsb heb = (
  _,
  _,
  refl,
  refl,
  ordered_ltb start_a start_b (ordered_i64_bytes end_a) (ordered_i64_bytes end_b) hsa hsb ∙ (λ k.
      if ltb_ℤ start_a start_b
      then true
      else if eqb_ℤ start_a start_b
      then last_ltb end_a end_b hea heb k
      else false),
)

same_bound :
    (a b : ℤ) (xs ys : List ℕ)
    → IsI64 a
    → IsI64 b
    → ordered_i64_bytes a ++ xs ≡ ordered_i64_bytes b ++ ys
    → (a ≡ b) × (xs ≡ ys)
unfolding ordered_i64_bytes encode_timestamp_millis
same_bound a b xs ys ha hb h =
    let pair : ◌≡◌ {A = ℤ × List ℕ} (a, xs) (b, ys) = some_eq _ _ (
      sym (decode_timestamp_millis-encode_timestamp_millis a xs ha)
      ∙ ap decode_timestamp_millis h
      ∙ decode_timestamp_millis-encode_timestamp_millis b ys hb) in
    (λ k. (pair k).0, λ k. (pair k).1)

-- The bounds of an interval are i64.
abbrev pub IsI64Window : BeamWindow → Type 0
IsI64Window (interval start_millis end_millis) = IsI64 start_millis × IsI64 end_millis
IsI64Window _ = Unit {0}

head_or : ℕ → List ℕ → ℕ
head_or n [] = n
head_or n (x ∷ xs) = x

-- The key starts with a byte for the kind of window.
kind : BeamWindow → ℕ
kind global = 0
kind (interval start_millis end_millis) = 1
kind (opaque coder_id bytes) = 2

body : BeamWindow → List ℕ
unfolding ordered_i64_bytes
body global = []
body (interval start_millis end_millis) =
    ordered_i64_bytes start_millis ++ ordered_i64_bytes end_millis
body (opaque coder_id bytes) = put_be 4 (length (as_bytes coder_id)) ++ (as_bytes coder_id ++ bytes)

IsNameable : BeamWindow → Type 0
IsNameable (opaque coder_id bytes) = length (as_bytes coder_id) < 4_294_967_296
IsNameable _ = Unit {0}

guarded :
    (n : ℕ) (x k : List ℕ)
    → (if ltb n 4_294_967_296 then some x else none) ≡ some k
    → (n < 4_294_967_296) × (x ≡ k)
guarded n x k h = ground (arith, some_eq x k)

key_parts :
    (w : BeamWindow) (k : List ℕ) → to_binary_key w ≡ some k → IsNameable w × (kind w ∷ body w ≡ k)
unfolding to_binary_key kind body IsNameable
key_parts global k h = (_, some_eq _ _ h)
key_parts (interval a b) k h = (_, some_eq _ _ h)
key_parts (opaque i x) k h = guarded (length (as_bytes i)) _ k h

same_body :
    (v w : BeamWindow)
    → IsI64Window v
    → IsI64Window w
    → IsNameable v
    → IsNameable w
    → kind v ≡ kind w
    → body v ≡ body w
    → v ≡ w
unfolding kind body IsNameable
same_body global global hv hw nv nw e h = refl
same_body (interval a b) (interval c d) hv hw nv nw e h =
    let first = same_bound a c (ordered_i64_bytes b) (ordered_i64_bytes d) hv.0 hw.0 h in
    let second = same_bound b d [] [] hv.1 hw.1 (ap (λ xs. xs ++ []) first.1) in
    λ k. interval (first.0 k) (second.0 k)
same_body (opaque i x) (opaque j y) hv hw nv nw e h =
    let both = same_prefixed (as_bytes i) (as_bytes j) x y nv nw h in
    λ k. opaque (as_bytes→eq i j both.0 k) (both.1 k)
same_body v w hv hw nv nw e h = absurd (omega arith)

-- Two windows with the same key are the same window, if the bounds of an interval are i64: a global
-- window, intervals and custom windows are never confused, nor two custom windows of different coders
-- or bytes.
pub to_binary_key→eq :
    (v w : BeamWindow) (k : List ℕ)
    → IsI64Window v
    → IsI64Window w
    → to_binary_key v ≡ some k
    → to_binary_key w ≡ some k
    → v ≡ w
unfolding kind body head_or
to_binary_key→eq v w k hv hw ev ew =
    let pv = key_parts v k ev in
    let pw = key_parts w k ew in
    let same = pv.1 ∙ sym pw.1 in
    same_body v w hv hw pv.0 pw.0 (ap (head_or 0) same) (ap (drop 1) same)
