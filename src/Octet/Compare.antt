-- ===== src/Octet/Compare.antt =====
-- lib/oct.c: the comparisons of octet strings. An octet string is the list of its `len` bytes, a
-- string of C the bytes before its 0, and a null pointer is `none`. The proofs are in the modules
-- below.
pub mod Order
pub mod Prefix
use spocp.Prelude.{
  ℕ, suc, min, Bytes, [], ◌∷◌, Option, none, some, ◌==◌, ltb, if◌then◌else◌, length, minus_one,
  size_diff,
}

-- `memcmp(a, b, n)` of the C library, which fixes the sign of its result only.
unfoldable pub memcmp : Bytes → Bytes → ℕ → ℕ
memcmp (x ∷ a) (y ∷ b) (suc n) = if x == y then memcmp a b n else if ltb x y then minus_one else 1
memcmp _ _ _ = 0

unfoldable pub octcmp : Option Bytes → Option Bytes → ℕ
octcmp (some a) (some b) =
    let r = memcmp a b (min (length a) (length b)) in
    if r == 0 then size_diff (length a) (length b) else r
octcmp _ _ = minus_one

unfoldable pub octncmp : Bytes → Bytes → ℕ → ℕ
octncmp a b cn = memcmp a b (min (min (length a) (length b)) cn)

-- `memcmp` gets the string first here, so the sign is that of the string against the octets.
compare_string : Bytes → Bytes → ℕ
compare_string o s =
    let l = length s in
    if l == length o
    then memcmp s o (length o)
    else let n = if ltb l (length o) then l else length o in
      let r = memcmp s o n in if r == 0 then if n == l then minus_one else 1 else r

unfoldable pub oct2strcmp : Option Bytes → Option Bytes → ℕ
unfolding compare_string
oct2strcmp none none = 0
oct2strcmp none (some []) = 0
oct2strcmp none (some (c ∷ s)) = minus_one
oct2strcmp (some o) none = minus_one
oct2strcmp (some o) (some []) = minus_one
oct2strcmp (some o) (some (c ∷ s)) = compare_string o (c ∷ s)

unfoldable pub oct2strncmp : Bytes → Bytes → ℕ → ℕ
oct2strncmp o s l = memcmp s o (min (min (length s) (length o)) l)
