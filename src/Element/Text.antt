-- ===== src/Element/Text.antt =====
-- lib/element.c: the canonical text of an element, and which elements `element_print` writes so.
use spocp.Element.Print.{element_print, print_all, print_more}
use spocp.Element.{
  Element, Elements, atom, list, set, prefix, suffix, range, any, nil, cons, is_star,
}
use spocp.Prelude.{
  ℕ, suc, ◌+◌, ◌<◌, Bytes, [], ◌∷◌, ◌++◌, true, false, ◌==◌, length, codes, ◌≡◌, refl, sym, ap, ◌∙◌,
  arith, append_assoc, length-append,
}
use spocp.Sexp.Canon.{canonical_head}
use spocp.Sexp.Token.{canonical, IsAtom}
use spocp.Sexp.{piece}

-- The text of an element in canonical form.
unfoldable mutual
  pub text : Element → Bytes
  text (atom s) = canonical s
  text (list es) = b'(' ∷ (texts es ++ (b')' ∷ []))
  text (set es) = codes "(1:*3:set" ++ (texts es ++ (b')' ∷ []))
  text _ = []

  pub texts : Elements → Bytes
  texts nil = []
  texts (cons e es) = text e ++ texts es

abbrev pub IsTagged : Elements → Type 0
IsTagged (cons (atom s) es) = is_star (piece s) ≡ false
IsTagged _ = ⊥

abbrev pub HasTwo : Elements → Type 0
HasTwo (cons e (cons f es)) = Unit
HasTwo _ = ⊥

abbrev pub IsMember : Element → Type 0
IsMember (set es) = ⊥
IsMember _ = Unit

abbrev pub AreMembers : Elements → Type 0
AreMembers nil = Unit
AreMembers (cons e es) = IsMember e × AreMembers es

-- An element that is written whole and read back: its atoms can be written, a list begins with a tag
-- that is not the star, a set has two members at least and none that is a set, and there are no
-- prefixes, suffixes, ranges or `any` in it.
abbrev mutual
  pub IsPrintable : Element → Type 0
  IsPrintable (atom s) = IsAtom s
  IsPrintable (list es) = IsTagged es × ArePrintable es
  IsPrintable (set es) = HasTwo es × AreMembers es × ArePrintable es
  IsPrintable _ = ⊥

  pub ArePrintable : Elements → Type 0
  ArePrintable nil = Unit
  ArePrintable (cons e es) = IsPrintable e × ArePrintable es

mutual
  unfolding element_print text print_more

  pub element_print-text : (e : Element) → IsPrintable e → element_print e ≡ (true, text e)
  element_print-text (atom s) p = refl
  element_print-text (list es) (tag, p) = rw (print_all-texts es p) refl
  element_print-text (set es) (two, m, p) = rw (print_all-texts es p) refl
  element_print-text (prefix s) p = absurd p
  element_print-text (suffix s) p = absurd p
  element_print-text (range r) p = absurd p
  element_print-text any p = absurd p

  print_all-texts : (es : Elements) → ArePrintable es → print_all es ≡ (true, texts es)
  print_all-texts nil p = refl
  print_all-texts (cons e es) (p, ps) = rw (element_print-text e p, print_all-texts es ps) refl

-- The text of an element begins with `(` or a digit, so not with `)`.
pub text_head :
    (e : Element) (rest : Bytes)
    → IsPrintable e
    → (c : ℕ) × (u : Bytes) × (text e ++ rest ≡ c ∷ u) × ((c == b')') ≡ false)
unfolding text
text_head (atom s) rest p =
    let (c, u, e, d) = canonical_head s rest p in (c, u, e, ground (arith, d))
text_head (list es) rest p = (b'(', _, refl, refl)
text_head (set es) rest p = (b'(', _, refl, refl)
text_head (prefix s) rest p = absurd p
text_head (suffix s) rest p = absurd p
text_head (range r) rest p = absurd p
text_head any rest p = absurd p

pub length-list :
    (s : Bytes) (es : Elements) (rest : Bytes)
    → length (text (list (cons (atom s) es)) ++ rest)
      ≡ suc (length (canonical s) + length (texts es ++ (b')' ∷ rest)))
unfolding text
length-list s es rest = ap suc (
    ap length (
      append_assoc (canonical s ++ texts es) (b')' ∷ []) rest
      ∙ append_assoc (canonical s) (texts es) (b')' ∷ rest))
    ∙ length-append (canonical s) (texts es ++ (b')' ∷ rest)))

pub length-set :
    (es : Elements) (rest : Bytes)
    → length (text (set es) ++ rest) ≡ 9 + length (texts es ++ (b')' ∷ rest))
unfolding text
length-set es rest = omega (arith, ap length (append_assoc (texts es) (b')' ∷ []) rest))

pub texts-cons :
    (e : Element) (es : Elements) (more : Bytes)
    → texts (cons e es) ++ more ≡ text e ++ (texts es ++ more)
unfolding text
texts-cons e es more = append_assoc (text e) (texts es) more

text_pos : (e : Element) (more : Bytes) → IsPrintable e → length more < length (text e ++ more)
text_pos e more p =
    let (c, u, q, d) = text_head e [] p in
    omega (arith, ap length q, length-append (text e) [], length-append (text e) more)

pub length-more :
    (e : Element) (es : Elements) (rest : Bytes)
    → IsPrintable e
    → length (texts es ++ (b')' ∷ rest)) < length (texts (cons e es) ++ (b')' ∷ rest))
length-more e es rest p =
    rw (texts-cons e es (b')' ∷ rest)) (text_pos e (texts es ++ (b')' ∷ rest)) p)

pub length-first :
    (e : Element) (es : Elements) (rest : Bytes)
    → length (text e ++ (texts es ++ (b')' ∷ rest))) ≡ length (texts (cons e es) ++ (b')' ∷ rest))
length-first e es rest = ap length (sym (texts-cons e es (b')' ∷ rest)))

pub texts-nil : (rest : Bytes) → texts nil ++ rest ≡ rest
unfolding text
texts-nil rest = refl
