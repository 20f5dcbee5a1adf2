-- ===== src/Element/Reads.antt =====
-- lib/input.c: how `element_get` and its loops read the canonical text of one element, given that
-- they read the parts.
use spocp.Element.Text.{HasTwo, IsPrintable, text, texts, text_head}
use spocp.Element.Steps.{
  get_element-closed, get_element-opened, get_element-atom, get_compound-form, set_loop-closed,
  set_loop-member, list_loop-element,
}
use spocp.Element.{
  Element, Elements, atom, list, set, nil, cons, to_list, of_list, add_member, end_set, form_of,
  is_star, tagged, get_element, get_compound, get_form, set_loop, list_loop,
}
use spocp.Octet.Number.Value.{IsDigit}
use spocp.Prelude.{
  ℕ, suc, Bytes, List, [], ◌∷◌, ◌++◌, some, Bool, true, false, codes, ok, ◌>>=◌, ◌≡◌, refl, sym, ap,
  ◌∙◌, arith, append_assoc,
}
use spocp.Range.{Libc}
use spocp.Sexp.Canon.{canonical_head}
use spocp.Sexp.Decimal.{decimal}
use spocp.Sexp.Token.{canonical, IsAtom, get_str-canonical}
use spocp.Sexp.{piece, get_str}

of_list-to_list : (es : Elements) → of_list (to_list es) ≡ es
of_list-to_list nil = refl
of_list-to_list (cons e es) = ap (cons e) (of_list-to_list es)

end_set-two :
    (es : Elements) (c : ℕ) (op : Bytes)
    → HasTwo es
    → end_set (to_list es) (c ∷ op) ≡ ok (some (set es), op)
unfolding end_set
end_set-two nil c op two = absurd two
end_set-two (cons e nil) c op two = absurd two
end_set-two (cons e (cons f es)) c op two =
    ap (λ (fs : Elements). ok (some (set (cons e (cons f fs))), op)) (of_list-to_list es)

get_str_star : (rest : Bytes) → get_str (codes "1:*" ++ rest) ≡ ok (piece (codes "*"), rest)
unfolding decimal
get_str_star rest =
    get_str-canonical (codes "*") rest (record { not_empty = omega arith; fits = omega arith })

get_str_set : (rest : Bytes) → get_str (codes "3:set" ++ rest) ≡ ok (piece (codes "set"), rest)
unfolding decimal
get_str_set rest =
    get_str-canonical (codes "set") rest (record { not_empty = omega arith; fits = omega arith })

module _ (libc : Libc) (rest : Bytes) where
  atom_at :
      (fuel c : ℕ) (u s : Bytes)
      → IsDigit c
      → get_str (c ∷ u) ≡ ok (piece s, rest)
      → get_element (suc fuel) libc (c ∷ u) ≡ ok (some (atom s), rest)
  atom_at fuel c u s d read =
      get_element-atom fuel libc c u (ground (arith, d)) (ground (arith, d)) ∙ rw read refl

  pub atom_reads :
      (fuel : ℕ) (s : Bytes)
      → IsAtom s
      → get_element (suc fuel) libc (text (atom s) ++ rest) ≡ ok (some (atom s), rest)
  unfolding text
  atom_reads fuel s a =
      let (c, u, e, d) = canonical_head s rest a in
      rw e (atom_at fuel c u s d (ap get_str (sym e) ∙ get_str-canonical s rest a))

  compound_reads :
      (fuel : ℕ) (s : Bytes) (es : Elements)
      → is_star (piece s) ≡ false
      → list_loop fuel libc false (texts es ++ (b')' ∷ rest)) ≡ ok (es, rest)
      → get_compound (suc fuel) libc (is_star (piece s)) (piece s) (texts es ++ (b')' ∷ rest))
        ≡ ok (some (list (cons (atom s) es)), rest)
  unfolding get_compound tagged
  compound_reads fuel s es plain read = rw (plain, read) refl

  pub list_reads :
      (fuel : ℕ) (s : Bytes) (es : Elements)
      → IsAtom s
      → is_star (piece s) ≡ false
      → list_loop fuel libc false (texts es ++ (b')' ∷ rest)) ≡ ok (es, rest)
      → get_element (suc (suc fuel)) libc (text (list (cons (atom s) es)) ++ rest)
        ≡ ok (some (list (cons (atom s) es)), rest)
  unfolding text
  list_reads fuel s es a plain read =
      get_element-opened (suc fuel) libc b'(' _ refl refl
      ∙ ap (λ (t : Bytes). get_str t >>= λ x. get_compound (suc fuel) libc (is_star x.0) x.0 x.1)
          (append_assoc (canonical s ++ texts es) (b')' ∷ []) rest
            ∙ append_assoc (canonical s) (texts es) (b')' ∷ rest))
      ∙ rw (get_str-canonical s (texts es ++ (b')' ∷ rest)) a) (compound_reads fuel s es plain read)

  pub set_opens :
      (fuel : ℕ) (es : Elements)
      → set_loop fuel libc [] (texts es ++ (b')' ∷ rest)) ≡ end_set (to_list es) (b')' ∷ rest)
      → get_element (suc (suc (suc fuel))) libc (text (set es) ++ rest)
        ≡ end_set (to_list es) (b')' ∷ rest)
  unfolding text is_star form_of get_form
  set_opens fuel es read =
      get_element-opened (suc (suc fuel)) libc b'(' _ refl refl
      ∙ rw (get_str_star (codes "3:set" ++ ((texts es ++ (b')' ∷ [])) ++ rest))) (
          get_compound-form (suc fuel) libc b'3' _ (piece (codes "*")) refl
          ∙ rw (get_str_set ((texts es ++ (b')' ∷ [])) ++ rest))
              (ap (set_loop fuel libc []) (append_assoc (texts es) (b')' ∷ []) rest) ∙ read))

  pub set_reads :
      (fuel : ℕ) (es : Elements)
      → HasTwo es
      → set_loop fuel libc [] (texts es ++ (b')' ∷ rest)) ≡ end_set (to_list es) (b')' ∷ rest)
      → get_element (suc (suc (suc fuel))) libc (text (set es) ++ rest) ≡ ok (some (set es), rest)
  set_reads fuel es two read = set_opens fuel es read ∙ end_set-two es b')' rest two

  pub set_end :
      (fuel : ℕ) (sa : List Element)
      → set_loop (suc fuel) libc sa (b')' ∷ rest) ≡ end_set sa (b')' ∷ rest)
  set_end fuel sa = set_loop-closed fuel libc b')' rest sa refl

  pub list_end :
      (fuel : ℕ) (last : Bool) → list_loop (suc (suc fuel)) libc last (b')' ∷ rest) ≡ ok (nil, rest)
  list_end fuel last =
      list_loop-element (suc fuel) libc b')' rest last
      ∙ rw (get_element-closed fuel libc b')' rest refl) refl

  pub list_more :
      (fuel : ℕ) (last : Bool) (e : Element) (es : Elements) (more : Bytes)
      → IsPrintable e
      → get_element fuel libc (text e ++ more) ≡ ok (some e, more)
      → list_loop fuel libc true more ≡ ok (es, rest)
      → list_loop (suc fuel) libc last (text e ++ more) ≡ ok (cons e es, rest)
  list_more fuel last e es more p first next =
      let (c, u, q, d) = text_head e more p in
      rw q (
        list_loop-element fuel libc c u last
        ∙ rw (ap (get_element fuel libc) (sym q) ∙ first) (rw next refl))

  pub set_more :
      (fuel : ℕ) (sa all : List Element) (e : Element) (more : Bytes)
      → IsPrintable e
      → get_element fuel libc (text e ++ more) ≡ ok (some e, more)
      → set_loop fuel libc (add_member sa e) more ≡ end_set all (b')' ∷ rest)
      → set_loop (suc fuel) libc sa (text e ++ more) ≡ end_set all (b')' ∷ rest)
  set_more fuel sa all e more p first next =
      let (c, u, q, d) = text_head e more p in
      rw q
        (set_loop-member fuel libc c u sa d ∙ rw (ap (get_element fuel libc) (sym q) ∙ first) next)
