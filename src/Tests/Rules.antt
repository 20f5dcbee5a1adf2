-- ===== src/Tests/Rules.antt =====
-- Concrete s-expressions, elements and ranges for the theorems on lib/sexp.c, lib/input.c,
-- lib/element.c, lib/verify.c and server/cmp.c.
use spocp.Compare.Answers.{Answers}
use spocp.Compare.Below.{Below, elementcmp-Below}
use spocp.Compare.Texts.{IsText, limit}
use spocp.Compare.{elementcmp, listcmp, atom2prefixcmp, atomcmp}
use spocp.Element.Ends.{element_get-Ends}
use spocp.Element.Print.{element_print}
use spocp.Element.RoundTrip.{element_get-element_print}
use spocp.Element.{Element, is_star, atom, list, set, prefix, range, nil, cons, element_get}
use spocp.Octet.Compare.{octcmp, octncmp, memcmp}
use spocp.Prelude.{
  ℕ, [], false, ◌%◌, ◌<◌, ◌≤◌, Bytes, ◌++◌, none, some, true, codes, length, int_mod, int_max,
  minus_one, ok, err, syntax_error, Ends, left, ◌≡◌, ◌≢◌, refl, arith, ◌⊎◌,
}
use spocp.Range.{Libc, SpocpRange, alpha, octets}
use spocp.Sexp.Canon.{Canon, Canons, encode}
use spocp.Sexp.Frame.{sexp_len-encode, sexp_len_outcomes}
use spocp.Sexp.Token.{IsAtom}
use spocp.Sexp.{sexp_len}
use spocp.Verify.{is_numeric, is_time}

-- A C library that knows no address and moves no date.
abbrev some_libc : Libc
some_libc = record { inet_pton = λ s. none; htonl = λ n. n; move_time = λ date later n. date }

abbrev atom_fits : (s : Bytes) → 0 < length s → length s ≤ int_max → IsAtom s
atom_fits s pos le = record { not_empty = pos; fits = le }

-- `(3:foo(1:*3:set1:a2:bc))`
abbrev foo : Element
foo = list (
    cons (atom (codes "foo"))
      (cons (set (cons (atom (codes "a")) (cons (atom (codes "bc")) nil))) nil))

element_get-element_print_example :
    ((element_print foo).0 ≡ true)
    × (element_get some_libc ((element_print foo).1 ++ codes "1:x") ≡ ok (some foo, codes "1:x"))
unfolding is_star
element_get-element_print_example = element_get-element_print some_libc foo (codes "1:x") (
  refl,
  (
    atom_fits (codes "foo") (omega arith) (omega arith),
    (
      (
        tt,
        (tt, (tt, tt)),
        (
          atom_fits (codes "a") (omega arith) (omega arith),
          (atom_fits (codes "bc") (omega arith) (omega arith), tt),
        ),
      ),
      tt,
    ),
  ),
)

element_get-Ends_example : Ends left 6 (element_get some_libc (codes "(3:foo"))
element_get-Ends_example = element_get-Ends some_libc (codes "(3:foo")

-- `(1:a1:b1:c)` against `(1:a(1:*6:prefix1:b))`.
abbrev query : Element
query = list (cons (atom (codes "a")) (cons (atom (codes "bc")) (cons (atom (codes "c")) nil)))

abbrev rule : Element
rule = list (cons (atom (codes "a")) (cons (prefix (codes "b")) nil))

query-rule : elementcmp some_libc query rule ≡ ok 0
unfolding elementcmp listcmp atom2prefixcmp atomcmp octcmp octncmp memcmp
query-rule = refl

-- The strings from "b" on, "c" excluded, and a set of "c" and of these.
abbrev from_b : SpocpRange
from_b = record {
  type_of = alpha;
  lower = limit (some (true, codes "b")) (octets []);
  upper = limit (some (false, codes "c")) (octets []);
}

abbrev choice : Element
choice = set (cons (atom (codes "c")) (cons (range from_b) nil))

from_b-IsText : IsText from_b
from_b-IsText = record {
  lo = some (true, codes "b");
  hi = some (false, codes "c");
  v = octets [];
  w = octets [];
  limits = refl;
  short_lo = omega arith;
  short_hi = omega arith;
}

elementcmp-Below_example :
    Answers
      (elementcmp some_libc query (list (cons (atom (codes "a")) (cons choice nil))))
      (Below query (list (cons (atom (codes "a")) (cons choice nil))))
elementcmp-Below_example =
    elementcmp-Below some_libc query (list (cons (atom (codes "a")) (cons choice nil)))
      (omega arith, (omega arith, (omega arith, tt)))
      (omega arith, ((omega arith, (from_b-IsText, tt)), tt))

-- `(1:a2:bc)`
abbrev two_atoms : Canons
two_atoms = Canons.cons (Canon.atom (codes "a")) (Canons.cons (Canon.atom (codes "bc")) Canons.nil)

sexp_len-encode_example :
    sexp_len (encode (Canon.list two_atoms) ++ codes "rest")
    ≡ ok (length (encode (Canon.list two_atoms)) % int_mod)
sexp_len-encode_example = sexp_len-encode two_atoms (codes "rest") (
  atom_fits (codes "a") (omega arith) (omega arith),
  (atom_fits (codes "bc") (omega arith) (omega arith), tt),
)

sexp_len_outcomes_example :
    (n : ℕ) × (sexp_len (codes "(3:foo") ≡ ok n)
    × ((◌≡◌ {A = ℕ} b'(' b'(') × (n ≢ minus_one) × (n ≤ 6)
        ⊎ (◌≢◌ {A = ℕ} b'(' b'(') × (n ≡ minus_one))
sexp_len_outcomes_example = sexp_len_outcomes b'(' (codes "3:foo") (omega arith)

is_numeric_12 : is_numeric (codes "12") ≡ ok 12
unfolding is_numeric
is_numeric_12 = refl

is_numeric_foo : is_numeric (codes "foo") ≡ err syntax_error
unfolding is_numeric
is_numeric_foo = refl

is_time_noon : is_time (codes "12:00:00") ≡ true
unfolding is_time
is_time_noon = refl
