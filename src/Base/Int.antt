-- ===== src/Base/Int.antt =====
-- Signed integers over the native numbers, and Go's int64 with its wrap-around.
use erebrus_gateway.Base.Tests.{ltb, leb, if◌then◌else◌}
use Prim.Native.Nat.{ℕ, suc, ◌+◌, ◌-◌, ◌%◌, ◌≤◌, ◌<◌}
use mathlib.Core.Path.{◌≡◌}
use mathlib.Core.Bool.{Bool}
use native.Mathlib.Omega.{arith}

-- `negsuc n` is -(n + 1).
pub data ℤ : Type 0 where
  pos : ℕ → ℤ
  negsuc : ℕ → ℤ

abbrev pub pos_part : ℤ → ℕ
pos_part (pos n) = n
pos_part (negsuc n) = 0

abbrev pub neg_part : ℤ → ℕ
neg_part (pos n) = 0
neg_part (negsuc n) = suc n

-- a - b, as an integer.
abbrev pub sub_ℕ : ℕ → ℕ → ℤ
sub_ℕ a b = if leb b a then pos (a - b) else negsuc (b - a - 1)

infixl 65 ◌+ℤ◌
infix 50 ◌≤ℤ◌
abbrev pub ◌+ℤ◌ : ℤ → ℤ → ℤ
a +ℤ b = sub_ℕ (pos_part a + pos_part b) (neg_part a + neg_part b)

-- -n
abbrev pub neg : ℕ → ℤ
neg n = sub_ℕ 0 n

abbrev pub ◌≤ℤ◌ : ℤ → ℤ → Type 0
a ≤ℤ b = pos_part a + neg_part b ≤ pos_part b + neg_part a

abbrev pub ltb_ℤ : ℤ → ℤ → Bool
ltb_ℤ a b = ltb (pos_part a + neg_part b) (pos_part b + neg_part a)

abbrev pub leb_ℤ : ℤ → ℤ → Bool
leb_ℤ a b = leb (pos_part a + neg_part b) (pos_part b + neg_part a)

-- 2^63, the first value that neither a Go int64 nor a PostgreSQL bigint holds.
abbrev pub i64_limit : ℕ
i64_limit = 9223372036854775808

-- 2^64
abbrev pub i64_modulus : ℕ
i64_modulus = 18446744073709551616

-- The int64 that the two's-complement arithmetic of Go gives for an integer.
unfoldable pub i64 : ℤ → ℤ
i64 (pos n) =
    let m = n % i64_modulus in if ltb m i64_limit then pos m else negsuc (i64_modulus - 1 - m)
i64 (negsuc n) =
    let m = n % i64_modulus in if ltb m i64_limit then negsuc m else pos (i64_modulus - 1 - m)

pub i64_small : (n : ℕ) → n < i64_limit → i64 (pos n) ≡ pos n
unfolding i64
i64_small n h = ground arith

pub i64_small_neg : (n : ℕ) → n < i64_limit → i64 (negsuc n) ≡ negsuc n
unfolding i64
i64_small_neg n h = ground arith

-- Past the limit a sum of two or three int64 values comes out negative.
pub i64_wraps :
    (n : ℕ) → i64_limit ≤ n → n < i64_modulus → i64 (pos n) ≡ negsuc (i64_modulus - 1 - n)
unfolding i64
i64_wraps n h k = ground arith
