-- ===== src/Tests/Octets.antt =====
-- Concrete octet strings for the theorems on lib/oct.c.
use spocp.Octet.Compare.Order.{Says, octcmp-Says}
use spocp.Octet.Compare.{octcmp}
use spocp.Octet.Escape.RoundTrip.{percent, oct_de_escape-oct2strdup}
use spocp.Octet.Escape.{escape, oct2strdup, oct_de_escape}
use spocp.Octet.Number.Value.{IsDigit}
use spocp.Prelude.{All, Bytes, [], ◌∷◌, some, ok, codes, ◌≡◌, ◌≢◌, refl, arith}

octcmp-Says_example : Says (octcmp (some (codes "ab")) (some (codes "b"))) (codes "ab") (codes "b")
octcmp-Says_example = octcmp-Says (codes "ab") (codes "b") (omega arith) (omega arith)

b_not_nil : codes "b" ≢ []
b_not_nil e = cc

-- `a%` and the byte 255.
abbrev mixed : Bytes
mixed = b'a' ∷ b'%' ∷ 255 ∷ []

oct_de_escape-oct2strdup_example :
    oct_de_escape (oct2strdup (some mixed) percent) percent ≡ ok (some 3, mixed)
unfolding escape
oct_de_escape-oct2strdup_example =
    oct_de_escape-oct2strdup b'a' (b'%' ∷ 255 ∷ []) (omega arith, (omega arith, (omega arith, tt)))
      (omega arith)

strdup_mixed : oct2strdup (some mixed) percent ≡ some (escape percent mixed)
unfolding oct2strdup
strdup_mixed = refl

ten_digits : All IsDigit (codes "1000000000")
ten_digits = (
  (omega arith, omega arith),
  (
    (omega arith, omega arith),
    (
      (omega arith, omega arith),
      (
        (omega arith, omega arith),
        (
          (omega arith, omega arith),
          (
            (omega arith, omega arith),
            (
              (omega arith, omega arith),
              (
                (omega arith, omega arith),
                ((omega arith, omega arith), ((omega arith, omega arith), tt)),
              ),
            ),
          ),
        ),
      ),
    ),
  ),
)
