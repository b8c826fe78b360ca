-- ===== src/Base/Integers.antt =====
-- Signed integers over the native numbers, and C's conversions of a lua_Integer to the integer
-- types of the calls: a conversion keeps the value modulo the width.
use Prim.Native.Nat.{ℕ, suc, ◌+◌, ◌-◌, ◌%◌, ◌^◌, ◌≤◌, ◌<◌}
use mathlib.Core.Path.{◌≡◌}
use mathlib.Core.Bool.{Bool, true, false}
use mathlib.Core.Logic.{◌↔◌}
use native.Mathlib.Omega.{arith}
use luaposix.Base.Tests.{if◌then◌else◌, leb, ltb, ◌==◌}

-- `negsuc n` is -(n + 1).
pub data ℤ : Type 0 where
  pos : ℕ → ℤ
  negsuc : ℕ → ℤ

abbrev pub minus_one : ℤ
minus_one = negsuc 0

abbrev pub eq_ℤ : ℤ → ℤ → Bool
eq_ℤ (pos a) (pos b) = a == b
eq_ℤ (negsuc a) (negsuc b) = a == b
eq_ℤ (pos a) (negsuc b) = false
eq_ℤ (negsuc a) (pos b) = false

pub eq_ℤ_iff : (a b : ℤ) → (eq_ℤ a b ≡ true) ↔ (a ≡ b)
eq_ℤ_iff (pos a) (pos b) = ground arith
eq_ℤ_iff (negsuc a) (negsuc b) = ground arith
eq_ℤ_iff (pos a) (negsuc b) = ground arith
eq_ℤ_iff (negsuc a) (pos b) = ground arith

abbrev pub is_negative : ℤ → Bool
is_negative (pos a) = false
is_negative (negsuc a) = true

abbrev pub pos_part : ℤ → ℕ
pos_part (pos n) = n
pos_part (negsuc n) = 0

abbrev pub neg_part : ℤ → ℕ
neg_part (pos n) = 0
neg_part (negsuc n) = suc n

-- a - b, as an integer.
abbrev pub sub_ℕ : ℕ → ℕ → ℤ
sub_ℕ a b = if leb b a then pos (a - b) else negsuc (b - a - 1)

infixl 65 ◌+ℤ◌ ◌-ℤ◌
infix 50 ◌≤ℤ◌ ◌<ℤ◌
abbrev pub ◌+ℤ◌ : ℤ → ℤ → ℤ
a +ℤ b = sub_ℕ (pos_part a + pos_part b) (neg_part a + neg_part b)

abbrev pub ◌-ℤ◌ : ℤ → ℤ → ℤ
a -ℤ b = sub_ℕ (pos_part a + neg_part b) (neg_part a + pos_part b)

abbrev pub ◌≤ℤ◌ : ℤ → ℤ → Type 0
a ≤ℤ b = pos_part a + neg_part b ≤ pos_part b + neg_part a

abbrev pub ◌<ℤ◌ : ℤ → ℤ → Type 0
a <ℤ b = pos_part a + neg_part b < pos_part b + neg_part a

abbrev pub ltb_ℤ : ℤ → ℤ → Bool
ltb_ℤ a b = ltb (pos_part a + neg_part b) (pos_part b + neg_part a)

abbrev pub leb_ℤ : ℤ → ℤ → Bool
leb_ℤ a b = leb (pos_part a + neg_part b) (pos_part b + neg_part a)

-- `(int) z`, and `(long) z` where the target is the same 64 bits as lua_Integer is the identity.
unfoldable pub cast_int : ℤ → ℤ
cast_int (pos n) = let m = n % 2 ^ 32 in if ltb m (2 ^ 31) then pos m else negsuc (2 ^ 32 - 1 - m)
cast_int (negsuc n) =
    let m = n % 2 ^ 32 in if ltb m (2 ^ 31) then negsuc m else pos (2 ^ 32 - 1 - m)

-- The 64 bits of lua_Integer, off_t and ssize_t, as the machine adds them.
unfoldable pub cast_long : ℤ → ℤ
cast_long (pos n) = let m = n % 2 ^ 64 in if ltb m (2 ^ 63) then pos m else negsuc (2 ^ 64 - 1 - m)
cast_long (negsuc n) =
    let m = n % 2 ^ 64 in if ltb m (2 ^ 63) then negsuc m else pos (2 ^ 64 - 1 - m)

-- `(short) z`.
unfoldable pub cast_short : ℤ → ℤ
cast_short (pos n) = let m = n % 2 ^ 16 in if ltb m (2 ^ 15) then pos m else negsuc (2 ^ 16 - 1 - m)
cast_short (negsuc n) =
    let m = n % 2 ^ 16 in if ltb m (2 ^ 15) then negsuc m else pos (2 ^ 16 - 1 - m)

-- `(uid_t) z`, `(gid_t) z`, `(mode_t) z`, `(uint32_t) z`, `(unsigned int) z`.
unfoldable pub cast_uint : ℤ → ℕ
cast_uint (pos n) = n % 2 ^ 32
cast_uint (negsuc n) = 2 ^ 32 - 1 - n % 2 ^ 32

-- `(size_t) z`.
unfoldable pub cast_size : ℤ → ℕ
cast_size (pos n) = n % 2 ^ 64
cast_size (negsuc n) = 2 ^ 64 - 1 - n % 2 ^ 64

abbrev pub InInt : ℤ → Type 0
InInt z = (negsuc (2 ^ 31 - 1) ≤ℤ z) × (z <ℤ pos (2 ^ 31))

pub cast_int_id : (z : ℤ) → InInt z → cast_int z ≡ z
unfolding cast_int
cast_int_id (pos n) h = ground arith
cast_int_id (negsuc n) h = ground arith

abbrev pub InLong : ℤ → Type 0
InLong z = (negsuc (2 ^ 63 - 1) ≤ℤ z) × (z <ℤ pos (2 ^ 63))

pub cast_long_id : (z : ℤ) → InLong z → cast_long z ≡ z
unfolding cast_long
cast_long_id (pos n) h = ground arith
cast_long_id (negsuc n) h = ground arith

pub cast_int-InInt : (z : ℤ) → InInt (cast_int z)
unfolding cast_int
cast_int-InInt (pos n) = ground arith
cast_int-InInt (negsuc n) = ground arith

pub cast_uint-cast_int : (n : ℕ) → n < 2 ^ 32 → cast_uint (cast_int (pos n)) ≡ n
unfolding cast_int cast_uint
cast_uint-cast_int n h = ground arith

pub cast_uint_pos : (n : ℕ) → n < 2 ^ 32 → cast_uint (pos n) ≡ n
unfolding cast_uint
cast_uint_pos n h = ground arith
