-- ===== src/Prelude/Word.antt =====
-- C integers. An `int` is its 32 bits, read as a number below 2 ^ 32; a `size_t` has 64 bits.
use Prim.Native.Nat.{ℕ, ◌+◌, ◌-◌, ◌^◌, ◌%◌}
use mathlib.Core.Bool.{Bool, not, ◌&&◌}
use spocp.Prelude.Tests.{leb, ◌==◌}

abbrev pub int_mod : ℕ
int_mod = 2 ^ 32

abbrev pub size_mod : ℕ
size_mod = 2 ^ 64

abbrev pub int_max : ℕ
int_max = 2147483647

-- The `int` -1.
abbrev pub minus_one : ℕ
minus_one = 4294967295

abbrev pub is_negative : ℕ → Bool
is_negative n = leb 2147483648 n

abbrev pub is_positive : ℕ → Bool
is_positive n = not (n == 0) && not (is_negative n)

-- `a - b` of two `size_t`, returned as an `int`.
abbrev pub size_diff : ℕ → ℕ → ℕ
size_diff a b = (a + size_mod - b) % size_mod % int_mod
