-- ===== src/Common/Words.antt =====
-- Machine integers. A uint64 is a number below 2 ^ 64; an int64 is kept as its bit pattern, so
-- sums and differences are those of the uint64, and only the order reads the sign.
use Prim.Native.Nat.{ℕ, ◌+◌, ◌-◌, ◌%◌, ◌<◌}
use mathlib.Core.Bool.{Bool}
use mathlib.Core.Path.{◌≡◌}
use native.Mathlib.Omega.{arith}
use agentapi_doctor.Common.Tests.{ltb, leb}

abbrev pub word_size : ℕ
word_size = 18446744073709551616

abbrev pub sign_bit : ℕ
sign_bit = 9223372036854775808

-- `a + b` and `a - b` at 64 bits.
abbrev pub add64 : ℕ → ℕ → ℕ
add64 a b = (a + b) % 18446744073709551616

abbrev pub sub64 : ℕ → ℕ → ℕ
sub64 a b = (a + 18446744073709551616 - b) % 18446744073709551616

-- `a < 0` of an int64.
abbrev pub is_negative : ℕ → Bool
is_negative a = leb 9223372036854775808 a

-- `a < b` of two int64.
abbrev pub lt64 : ℕ → ℕ → Bool
lt64 a b =
    ltb ((a + 9223372036854775808) % 18446744073709551616)
      ((b + 9223372036854775808) % 18446744073709551616)

-- A bit pattern that stands for a number at least 0.
abbrev pub IsNatural : ℕ → Type 0
IsNatural a = a < 9223372036854775808

pub lt64-IsNatural : (a b : ℕ) → IsNatural a → IsNatural b → lt64 a b ≡ ltb a b
lt64-IsNatural a b ha hb = ground arith
