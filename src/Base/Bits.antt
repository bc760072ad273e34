-- ===== src/Base/Bits.antt =====
-- The operators `&` and `|` on the bits of an `int`, which is given as a number below 2 ^ 32.
use google_test_c_programs.Base.{
  ℕ, zero, suc, ◌+◌, ◌*◌, ◌/◌, ◌%◌, Bool, true, false, max, ◌==◌, if◌then◌else◌,
}

-- On the lowest `w` bits.
unfoldable pub bits_and : ℕ → ℕ → ℕ → ℕ
bits_and zero a b = 0
bits_and (suc w) a b = 2 * bits_and w (a / 2) (b / 2) + a % 2 * (b % 2)

unfoldable pub bits_or : ℕ → ℕ → ℕ → ℕ
bits_or zero a b = 0
bits_or (suc w) a b = 2 * bits_or w (a / 2) (b / 2) + max (a % 2) (b % 2)

abbrev pub int_and : ℕ → ℕ → ℕ
int_and a b = bits_and 32 a b

abbrev pub int_or : ℕ → ℕ → ℕ
int_or a b = bits_or 32 a b

-- `if (a & b)`
abbrev pub int_test : ℕ → ℕ → Bool
int_test a b = if int_and a b == 0 then false else true
