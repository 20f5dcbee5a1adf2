-- ===== src/Sexp/Canon.antt =====
-- Canonical s-expressions: the texts that lib/sexp.c and lib/input.c read.
use spocp.Octet.Number.Value.{IsDigit, value}
use spocp.Prelude.{ℕ, ◌<◌, Bytes, [], ◌∷◌, ◌++◌, length, ◌≡◌, refl, arith, All, append_assoc}
use spocp.Sexp.Decimal.{decimal, decimal-IsDigit, value-decimal}
use spocp.Sexp.Token.{canonical, IsAtom}

mutual
  pub data Canon : Type 0 where
    atom : Bytes → Canon
    list : Canons → Canon

  pub data Canons : Type 0 where
    nil : Canons
    cons : Canon → Canons → Canons

unfoldable mutual
  pub encode : Canon → Bytes
  encode (atom s) = canonical s
  encode (list cs) = b'(' ∷ (encodes cs ++ (b')' ∷ []))

  pub encodes : Canons → Bytes
  encodes nil = []
  encodes (cons c cs) = encode c ++ encodes cs

-- Every atom in it can be written and read back.
abbrev mutual
  pub IsCanon : Canon → Type 0
  IsCanon (atom s) = IsAtom s
  IsCanon (list cs) = AreCanon cs

  pub AreCanon : Canons → Type 0
  AreCanon nil = Unit
  AreCanon (cons c cs) = IsCanon c × AreCanon cs

digits_head :
    (s t : Bytes)
    → All IsDigit s
    → 0 < value 0 s
    → (c : ℕ) × (u : Bytes) × (s ++ t ≡ c ∷ u) × IsDigit c
digits_head [] t h pos = absurd (omega arith)
digits_head (c ∷ s) t h pos = (c, s ++ t, refl, h.0)

-- An atom in canonical form begins with a digit.
pub canonical_head :
    (s rest : Bytes) → IsAtom s → (c : ℕ) × (u : Bytes) × (canonical s ++ rest ≡ c ∷ u) × IsDigit c
canonical_head s rest a = rw append_assoc (
    digits_head (decimal (length s)) _ (decimal-IsDigit (length s))
      (omega (arith, a.not_empty, value-decimal (length s))))
