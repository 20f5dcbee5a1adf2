-- ===== src/Octet/Number.antt =====
-- lib/oct.c: `octtoi` reads a decimal number, from its last digit to its first.
pub mod Value
use mathlib.Core.List.{reverse}
use spocp.Octet.Compare.{oct2strcmp}
use spocp.Prelude.{
  ℕ, ◌+◌, ◌-◌, ◌*◌, ◌%◌, Bytes, [], ◌∷◌, some, ◌&&◌, ◌||◌, ltb, ◌==◌, if◌then◌else◌, length,
  int_mod, minus_one, is_positive, codes,
}

-- `r` and `d` are of type `int`, and wrap around here where they overflow.
octtoi_loop : Bytes → ℕ → ℕ → ℕ
octtoi_loop [] r d = r
octtoi_loop (c ∷ cp) r d =
    let rest = octtoi_loop cp ((r + (c - b'0') * d) % int_mod) (d * 10 % int_mod) in
    if ltb c b'0' || ltb b'9' c then minus_one else rest

unfoldable pub octtoi : Bytes → ℕ
unfolding octtoi_loop
octtoi o =
    if ltb 10 (length o)
    then minus_one
    else if length o == 10 && is_positive (oct2strcmp (some o) (some (codes "2147483647")))
    then minus_one
    else octtoi_loop (reverse o) 0 1
