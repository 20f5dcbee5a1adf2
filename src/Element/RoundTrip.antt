-- ===== src/Element/RoundTrip.antt =====
-- lib/input.c and lib/element.c: `element_get` takes back what `element_print` writes.
use spocp.Element.Reads.{atom_reads, list_reads, set_reads, set_end, list_end, list_more, set_more}
use spocp.Element.Text.{
  IsMember, AreMembers, IsPrintable, ArePrintable, text, texts, element_print-text, length-list,
  length-set, texts-cons, length-more, length-first, texts-nil,
}
use spocp.Element.Print.{element_print}
use spocp.Element.{
  Element, Elements, atom, list, set, prefix, suffix, range, any, nil, cons, to_list, add_member,
  end_set, get_element, set_loop, list_loop, element_get,
}
use spocp.Prelude.{
  ℕ, zero, suc, ◌+◌, ◌*◌, ◌≤◌, Bytes, List, [], ◌∷◌, ◌++◌, some, Bool, true, false, length, ok, ◌≡◌,
  refl, ap, ◌∙◌, arith, append_assoc, append-nil,
}
use spocp.Range.{Libc}

add_member-IsMember :
    (sa : List Element) (e : Element) → IsMember e → add_member sa e ≡ sa ++ (e ∷ [])
unfolding add_member
add_member-IsMember sa (atom s) m = refl
add_member-IsMember sa (list es) m = refl
add_member-IsMember sa (set es) m = absurd m
add_member-IsMember sa (prefix s) m = refl
add_member-IsMember sa (suffix s) m = refl
add_member-IsMember sa (range r) m = refl
add_member-IsMember sa any m = refl

mutual
  read_element :
      (libc : Libc) (e : Element) (rest : Bytes) (fuel : ℕ)
      → IsPrintable e
      → 3 * length (text e ++ rest) + 1 ≤ fuel
      → get_element fuel libc (text e ++ rest) ≡ ok (some e, rest)
  read_element libc e rest zero p enough = absurd (omega arith)
  read_element libc (atom s) rest (suc fuel) p enough = atom_reads libc rest fuel s p
  read_element libc (list (cons (atom s) es)) rest (suc zero) p enough =
      absurd (omega (arith, length-list s es rest))
  read_element libc (list (cons (atom s) es)) rest (suc (suc fuel)) (tag, (a, ps)) enough =
      list_reads libc rest fuel s es a tag
        (read_list libc es rest fuel false ps (omega (arith, length-list s es rest)))
  read_element libc (set es) rest (suc (suc (suc fuel))) (two, m, ps) enough =
      set_reads libc rest fuel es two
        (read_set libc es rest fuel [] m ps (omega (arith, length-set es rest)))
  read_element libc (set es) rest (suc _) p enough = absurd (omega (arith, length-set es rest))
  read_element libc (list nil) rest (suc fuel) p enough = absurd p.0
  read_element libc (list (cons e es)) rest (suc fuel) p enough = absurd p.0
  read_element libc e rest (suc fuel) p enough = absurd p

  read_list :
      (libc : Libc) (es : Elements) (rest : Bytes) (fuel : ℕ) (last : Bool)
      → ArePrintable es
      → 3 * length (texts es ++ (b')' ∷ rest)) + 2 ≤ fuel
      → list_loop fuel libc last (texts es ++ (b')' ∷ rest)) ≡ ok (es, rest)
  read_list libc es rest zero last p enough = absurd (omega arith)
  read_list libc nil rest (suc zero) last p enough =
      absurd (omega (arith, ap length (texts-nil (b')' ∷ rest))))
  read_list libc nil rest (suc (suc fuel)) last p enough =
      rw (texts-nil (b')' ∷ rest)) (list_end libc rest fuel last)
  read_list libc (cons e es) rest (suc fuel) last (p, ps) enough =
      let more = texts es ++ (b')' ∷ rest) in
      rw (texts-cons e es (b')' ∷ rest)) (
        list_more libc rest fuel last e es more p
          (read_element libc e more fuel p (omega (arith, length-first e es rest)))
          (read_list libc es rest fuel true ps (omega (arith, length-more e es rest p))))

  pub read_set :
      (libc : Libc) (es : Elements) (rest : Bytes) (fuel : ℕ) (sa : List Element)
      → AreMembers es
      → ArePrintable es
      → 3 * length (texts es ++ (b')' ∷ rest)) + 2 ≤ fuel
      → set_loop fuel libc sa (texts es ++ (b')' ∷ rest)) ≡ end_set (sa ++ to_list es) (b')' ∷ rest)
  read_set libc es rest zero sa m p enough = absurd (omega arith)
  read_set libc nil rest (suc fuel) sa m p enough =
      rw (texts-nil (b')' ∷ rest), append-nil sa) (set_end libc rest fuel sa)
  read_set libc (cons e es) rest (suc fuel) sa (m, ms) (p, ps) enough =
      let more = texts es ++ (b')' ∷ rest) in
      rw (texts-cons e es (b')' ∷ rest)) (
        set_more libc rest fuel sa (sa ++ (e ∷ to_list es)) e more p
          (read_element libc e more fuel p (omega (arith, length-first e es rest)))
          (rw (add_member-IsMember sa e m) (
            read_set libc es rest fuel (sa ++ (e ∷ [])) ms ps
              (omega (arith, length-more e es rest p))
            ∙ ap (λ l. end_set l (b')' ∷ rest)) (append_assoc sa (e ∷ []) (to_list es)))))

-- What `element_print` writes for a printable element, `element_get` reads back: `element_print`
-- returns success, and on its text, whatever follows it, `element_get` returns the same element
-- and leaves what follows.
pub element_get-element_print :
    (libc : Libc) (e : Element) (rest : Bytes)
    → IsPrintable e
    → ((element_print e).0 ≡ true)
      × (element_get libc ((element_print e).1 ++ rest) ≡ ok (some e, rest))
unfolding element_get
element_get-element_print libc e rest p =
    rw (element_print-text e p)
      (refl, read_element libc e rest (4 * length (text e ++ rest) + 4) p (omega arith))
