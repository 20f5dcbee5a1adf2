-- ===== src/Element/Print.antt =====
-- lib/element.c: `element_print`. It appends to an octet string, and returns 0 where it gives up; what
-- it has written until then stays.
use spocp.Element.{Element, Elements, atom, list, set, prefix, suffix, range, any, nil, cons}
use spocp.Prelude.{
  ℕ, ◌-◌, ◌^◌, Bytes, [], ◌∷◌, ◌++◌, Bool, true, false, ltb, if◌then◌else◌, codes, size_mod,
}
use spocp.Range.{Boundary, RangeType, numeric, SpocpRange, is_set, num_of}
use spocp.Sexp.Decimal.{decimal}
use spocp.Sexp.Token.{canonical}

-- `sprintf` of `%ld`; the 64 bits of a `long`.
long_decimal : ℕ → Bytes
long_decimal n = if ltb n (2 ^ 63) then decimal n else b'-' ∷ decimal (size_mod - n)

-- `numeric_boundary_print`; `word` is `ge` or `gt` for the lower side, `le` or `lt` for the upper.
boundary_print : Bytes → Bytes → Boundary → Bytes
unfolding long_decimal
boundary_print equal_word word b =
    if is_set b
    then codes "2:"
      ++ (if b.equal then equal_word else word)
      ++ canonical (long_decimal (num_of b.value))
    else []

-- Of a range of another type nothing but the word `range` is written.
range_print : SpocpRange → Bytes
unfolding boundary_print
range_print r = codes "(1:*5:range" ++ limits r.type_of ++ (b')' ∷ [])
  where
    limits : RangeType → Bytes
    limits numeric =
        boundary_print (codes "ge") (codes "gt") r.lower
        ++ boundary_print (codes "le") (codes "lt") r.upper
    limits _ = []

-- The rest is printed only if the first was.
unfoldable pub print_more : Bool × Bytes → Bool × Bytes → Bool × Bytes
print_more (true, t) (r, u) = (r, t ++ u)
print_more (false, t) (r, u) = (false, t)

unfoldable mutual
  unfolding range_print print_more

  pub element_print : Element → Bool × Bytes
  element_print (atom s) = (true, canonical s)
  element_print (list es) =
      let (r, t) = print_all es in (r, b'(' ∷ (t ++ (if r then b')' ∷ [] else [])))
  element_print (set es) =
      let (r, t) = print_all es in (r, codes "(1:*3:set" ++ (t ++ (if r then b')' ∷ [] else [])))
  element_print (range r) = (true, range_print r)
  element_print (prefix s) = (false, [])
  element_print (suffix s) = (false, [])
  element_print any = (false, [])

  pub print_all : Elements → Bool × Bytes
  print_all nil = (true, [])
  print_all (cons e es) = print_more (element_print e) (print_all es)
