-- ===== src/Sexp/Framed.antt =====
-- lib/sexp.c: the texts of which `get_str` takes an atom, and the atom.
use spocp.Octet.Number.Value.{IsDigit, value}
use spocp.Prelude.{
  ◌%◌, ◌<◌, Bytes, ◌∷◌, ◌++◌, length, All, int_mod, Result, ok, err, missing_char, ◌≡◌, ◌⊎◌,
}
use spocp.Sexp.{to_size, Piece, piece}

-- A text begins with digits that spell the length of an atom, as an `int`, then a colon, the atom, which is
-- not empty, and the rest.
pub record IsFramed (t s rest : Bytes) : Type 0 where
  pub digits : Bytes
  pub are_digits : All IsDigit digits
  pub parts : t ≡ digits ++ (b':' ∷ (s ++ rest))
  pub not_empty : 0 < length s
  pub length_of : to_size (value 0 digits % int_mod) ≡ length s

-- A failure, or an atom of the text.
abbrev Outcome : Bytes → Result (Piece × Bytes) → Type 0
Outcome t r =
    (r ≡ err missing_char)
    ⊎ ((s : Bytes) × (rest : Bytes) × (r ≡ ok (piece s, rest)) × IsFramed t s rest)
