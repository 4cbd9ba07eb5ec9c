-- ===== src/Base/Words.antt =====
-- Machine integers as bit patterns: u32, u64, and the signed i64 in two's complement.
use rust_rtb_bidder.Base.{ℕ, ◌+◌, ◌-◌, ◌%◌, ◌<◌, ◌≡◌, arith, Bool, ltb, leb, if◌then◌else◌}

abbrev pub u32_mod : ℕ
u32_mod = 4_294_967_296

abbrev pub u64_mod : ℕ
u64_mod = 18_446_744_073_709_551_616

abbrev pub i64_bias : ℕ
i64_bias = 9_223_372_036_854_775_808

-- `fetch_add` and `fetch_sub` of a 64-bit atomic, which wrap.
unfoldable pub add64 : ℕ → ℕ → ℕ
add64 a b = (a + b) % u64_mod

unfoldable pub sub64 : ℕ → ℕ → ℕ
sub64 a b = (a + u64_mod - b) % u64_mod

-- `u32::saturating_add` and `u64::saturating_sub`.
unfoldable pub saturating_add32 : ℕ → ℕ → ℕ
saturating_add32 a b = if ltb (a + b) u32_mod then a + b else u32_mod - 1

unfoldable pub saturating_sub : ℕ → ℕ → ℕ
saturating_sub a b = a - b

-- The order of i64, on bit patterns: `a < b` and `a >= b` of the numbers that they stand for.
abbrev pub biased : ℕ → ℕ
biased a = (a + i64_bias) % u64_mod

unfoldable pub lt_i64 : ℕ → ℕ → Bool
lt_i64 a b = ltb (biased a) (biased b)

unfoldable pub le_i64 : ℕ → ℕ → Bool
le_i64 a b = leb (biased a) (biased b)

pub add64-sub64 : (a b : ℕ) → a < u64_mod → b < u64_mod → add64 (sub64 a b) b ≡ a
unfolding add64 sub64
add64-sub64 a b h k = omega arith

pub sub64_range : (a b : ℕ) → sub64 a b < u64_mod
unfolding sub64
sub64_range a b = omega arith

pub add64_range : (a b : ℕ) → add64 a b < u64_mod
unfolding add64
add64_range a b = omega arith
