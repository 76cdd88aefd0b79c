-- ===== src/Go/Int64.antt =====
-- `int64` as the bit pattern of its two's complement, a number below 2 ^ 64. The patterns from
-- 2 ^ 63 on are the negative numbers. Sums and products wrap around.
use gorpcbench.Prelude.{ℕ, ◌+◌, ◌-◌, ◌*◌, ◌%◌, ◌^◌, ◌<◌, Bool, ◌&&◌, arith, ltb}

abbrev pub IsInt64 : ℕ → Type 0
IsInt64 v = v < 2 ^ 64

unfoldable pub add64 : ℕ → ℕ → ℕ
add64 a b = (a + b) % 2 ^ 64

unfoldable pub mul64 : ℕ → ℕ → ℕ
mul64 a b = (a * b) % 2 ^ 64

-- `v > 0` on the signed reading of the pattern.
abbrev pub is_positive : ℕ → Bool
is_positive v = ltb 0 v && ltb v (2 ^ 63)

-- A number that is not negative on the signed reading.
abbrev pub IsCount : ℕ → Type 0
IsCount v = v < 2 ^ 63

pub add64-IsInt64 : (a b : ℕ) → IsInt64 (add64 a b)
unfolding add64
add64-IsInt64 a b = omega arith

pub mul64-IsInt64 : (a b : ℕ) → IsInt64 (mul64 a b)
unfolding mul64
mul64-IsInt64 a b = omega arith

-- `a - b`; the modulus is added first, since subtraction stops at 0.
unfoldable pub sub64 : ℕ → ℕ → ℕ
sub64 a b = (a + 2 ^ 64 - b) % 2 ^ 64
