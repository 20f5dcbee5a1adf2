-- ===== src/Element/Loss.antt =====
-- lib/input.c: texts that `element_get` accepts and does not keep.
use spocp.Element.Reads.{set_opens}
use spocp.Element.RoundTrip.{read_set}
use spocp.Element.Steps.{get_element-opened}
use spocp.Element.Text.{IsMember, AreMembers, IsPrintable, ArePrintable, text, length-set}
use spocp.Element.{
  Element, Elements, atom, list, set, nil, cons, end_set, to_list, is_star, tagged, end_list,
  get_element, get_compound, element_get,
}
use spocp.Prelude.{
  ℕ, suc, ◌+◌, ◌*◌, Bytes, [], ◌∷◌, ◌++◌, some, false, length, ok, fault, ◌≡◌, refl, sym, ap, subst,
  ◌∙◌, arith, append-nil,
}
use spocp.Range.{Libc}
use spocp.Sexp.Token.{canonical, IsAtom, get_str-canonical}
use spocp.Sexp.{piece, get_str}

three : (n : ℕ) → suc (suc (suc (4 * n + 1))) ≡ 4 * n + 4
three n = omega arith

-- The text of a set is read as the members and the end of the set.
set_text :
    (libc : Libc) (es : Elements) (rest : Bytes)
    → AreMembers es
    → ArePrintable es
    → element_get libc (text (set es) ++ rest) ≡ end_set (to_list es) (b')' ∷ rest)
unfolding element_get
set_text libc es rest m p =
    let n = length (text (set es) ++ rest) in
    subst
      (λ fuel. get_element fuel libc (text (set es) ++ rest) ≡ end_set (to_list es) (b')' ∷ rest))
      (three n)
      (set_opens libc rest (4 * n + 1) es
        (read_set libc es rest (4 * n + 1) [] m p (omega (arith, length-set es rest))))

-- Of a set with one member, which is printable and no set, `element_get` keeps nothing: it returns a
-- set with a null array. At the end of a set without members it reads through a null pointer.
pub element_get_lone :
    (libc : Libc) (e : Element) (rest : Bytes)
    → IsPrintable e
    → IsMember e
    → (element_get libc (text (set (cons e nil)) ++ rest) ≡ ok (some (set nil), rest))
      × (element_get libc (text (set nil) ++ rest) ≡ fault)
unfolding end_set
element_get_lone libc e rest p m =
    (set_text libc (cons e nil) rest (m, tt) (p, tt), set_text libc nil rest tt tt)

-- A list that ends behind its tag, which is an atom that can be written and not the star, is
-- accepted without its closing bracket.
pub element_get_unclosed :
    (libc : Libc) (s : Bytes)
    → IsAtom s
    → is_star (piece s) ≡ false
    → element_get libc (b'(' ∷ canonical s) ≡ ok (some (list (cons (atom s) nil)), [])
unfolding element_get get_compound tagged end_list
element_get_unclosed libc s a plain =
    let n = length (b'(' ∷ canonical s) in
    let tag : get_str (canonical s) ≡ ok (piece s, []) =
      ap get_str (sym (append-nil (canonical s))) ∙ get_str-canonical s [] a in
    subst
      (λ fuel.
        get_element fuel libc (b'(' ∷ canonical s) ≡ ok (some (list (cons (atom s) nil)), []))
      (three n)
      (get_element-opened (suc (suc (4 * n + 1))) libc b'(' (canonical s) refl refl
        ∙ rw (tag, plain) refl)
