-- ===== src/Prelude/Words.antt =====
-- 32-bit integers as bit patterns: `pid_t` and `u32` values are numbers below 2 ^ 32, and a
-- negative `pid_t` stands in two's complement, so that -1 is 2 ^ 32 - 1.
use Prim.Native.Nat.{ℕ, ◌+◌, ◌-◌, ◌%◌}
use mathlib.Core.Bool.{Bool}
use ckpt.Prelude.Tests.{leb}

abbrev pub minus_one : ℕ
minus_one = 4294967295

abbrev pub u32_mod : ℕ
u32_mod = 4294967296

-- `n + 1` at 32 bits.
abbrev pub next32 : ℕ → ℕ
next32 n = (n + 1) % 4294967296

-- `-x` at 32 bits.
abbrev pub neg32 : ℕ → ℕ
neg32 x = (4294967296 - x) % 4294967296

-- `a >= b` on `int`: the order of bit patterns with the sign bit turned over.
abbrev pub ge_signed : ℕ → ℕ → Bool
ge_signed a b = leb ((b + 2147483648) % 4294967296) ((a + 2147483648) % 4294967296)
