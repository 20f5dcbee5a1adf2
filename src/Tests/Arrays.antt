-- ===== src/Tests/Arrays.antt =====
-- Concrete arrays for the theorems on lib/varr.c and lib/octarr.c.
use spocp.Octarr.{Octarr}
use spocp.Prelude.{ℕ, codes, [], ◌∷◌, some, false, ok, ◌≡◌, arith, ◌⊎◌, ◌↔◌}
use spocp.Varr.Grow.{IsVarr}
use spocp.Varr.Members.{Has, NoRepeat}
use spocp.Varr.Sets.{varr_or-Union}
use spocp.Varr.{Varr, varr_or}

abbrev full : Varr
full = record { size = 2; arr = 7 ∷ 9 ∷ [] }

full-IsVarr : IsVarr full
full-IsVarr = record { some_room = omega arith; fits = omega arith }

abbrev other : Varr
other = record { size = 4; arr = 9 ∷ 5 ∷ 9 ∷ [] }

varr_or-Union_example :
    (c : Varr) × (varr_or (some full) (some other) false ≡ ok (some c))
    × IsVarr c
    × ((v : ℕ) → Has v c.arr ↔ (Has v full.arr ⊎ Has v other.arr))
    × (NoRepeat full.arr → NoRepeat c.arr)
varr_or-Union_example = varr_or-Union full other full-IsVarr

abbrev words : Octarr
words = record { size = 2; arr = codes "a" ∷ codes "bc" ∷ [] }

abbrev no_words : Octarr
no_words = record { size = 0; arr = [] }
