-- ===== src/Base/I64.antt =====
-- Machine integers of 64 bits: Rust's `as` between i64 and u64, and the sum of two i64, which wraps.
use Prim.Native.Nat.{ℕ, ◌+◌, ◌-◌, ◌%◌, ◌<◌}
use mathlib.Core.Path.{◌≡◌, ap, ◌∙◌}
use mathlib.Core.Bool.{false}
use native.Mathlib.Omega.{arith}
use flare_db.Base.Tests.{ltb, if◌then◌else◌}
use flare_db.Base.Int.{ℤ, pos, negsuc, ◌+ℤ◌}

-- `value as u64`
unfoldable pub to_u64 : ℤ → ℕ
to_u64 (pos n) = n
to_u64 (negsuc n) = 18_446_744_073_709_551_615 - n

-- `value as i64`
unfoldable pub from_u64 : ℕ → ℤ
from_u64 n =
    if ltb n 9_223_372_036_854_775_808 then pos n else negsuc (18_446_744_073_709_551_615 - n)

-- An integer that an i64 holds.
abbrev pub IsI64 : ℤ → Type 0
IsI64 (pos n) = n < 9_223_372_036_854_775_808
IsI64 (negsuc n) = n < 9_223_372_036_854_775_808

pub from_u64-to_u64 : (value : ℤ) → IsI64 value → from_u64 (to_u64 value) ≡ value
unfolding from_u64 to_u64
from_u64-to_u64 (pos n) h = ground arith
from_u64-to_u64 (negsuc n) h =
    let large : ltb (18_446_744_073_709_551_615 - n) 9_223_372_036_854_775_808 ≡ false =
      ground arith in
    rw (large) (λ k. negsuc (back k))
  where
    back : 18_446_744_073_709_551_615 - (18_446_744_073_709_551_615 - n) ≡ n
    back = omega arith

pub to_u64-bound : (value : ℤ) → IsI64 value → to_u64 value < 18_446_744_073_709_551_616
unfolding to_u64
to_u64-bound (pos n) h = omega arith
to_u64-bound (negsuc n) h = omega arith

-- `a + b` on two i64 in a build without overflow checks.
unfoldable pub wrapping_add : ℤ → ℤ → ℤ
unfolding to_u64 from_u64
wrapping_add a b = from_u64 ((to_u64 a + to_u64 b) % 18_446_744_073_709_551_616)

to_u64-add :
    (a b : ℤ)
    → IsI64 a
    → IsI64 b
    → IsI64 (a +ℤ b)
    → (to_u64 a + to_u64 b) % 18_446_744_073_709_551_616 ≡ to_u64 (a +ℤ b)
unfolding to_u64 ◌+ℤ◌
to_u64-add (pos m) (pos n) ha hb h = ground arith
to_u64-add (pos m) (negsuc n) ha hb h = ground arith
to_u64-add (negsuc m) (pos n) ha hb h = ground arith
to_u64-add (negsuc m) (negsuc n) ha hb h = ground arith

-- Where the exact sum is an i64, nothing wraps.
pub wrapping_add-exact : (a b : ℤ) → IsI64 a → IsI64 b → IsI64 (a +ℤ b) → wrapping_add a b ≡ a +ℤ b
unfolding wrapping_add
wrapping_add-exact a b ha hb h = ap from_u64 (to_u64-add a b ha hb h) ∙ from_u64-to_u64 (a +ℤ b) h
