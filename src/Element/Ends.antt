-- ===== src/Element/Ends.antt =====
-- lib/input.c: `element_get` ends on every text, and what it leaves is shorter than the text.
use spocp.Element.Steps.{
  get_element-closed, get_element-opened, get_element-atom, get_compound-any, get_compound-form,
  set_loop-closed, set_loop-member, list_loop-element, next_member, next_element,
}
use spocp.Element.{
  Element, prefix, suffix, close, do_affix, element_of, add_member, end_set, Form, prefix_form,
  suffix_form, range_form, set_form, no_form, form_of, is_star, end_list, get_element, get_compound,
  get_form, set_loop, list_loop, element_get, tagged,
}
use spocp.Prelude.{
  ℕ, zero, suc, ◌+◌, ◌*◌, ◌<◌, ◌≤◌, Bytes, List, [], ◌∷◌, Option, none, some, Bool, true, false,
  ◌==◌, length, arith, inl, inr, Bool-cases, Ends, Ends-bind, Ends_mono, Stops-bind, left,
}
use spocp.Range.Ends.{get_str-Ends, get_str_cons-Ends, bytes_of-Stops, do_range-Ends}
use spocp.Range.{Libc, RangeElement, range_of, atom_of}
use spocp.Sexp.{Piece}

-- With this fuel, every parser ends: an element takes at least one octet, and a list and a set pass
-- through at most two functions before the next octet is taken.
record AllEnd (libc : Libc) (fuel : ℕ) : Type 0 where
  of_element :
      (op : Bytes) → 3 * length op + 1 ≤ fuel → Ends left (length op) (get_element fuel libc op)
  of_compound :
      (star : Bool) (tag : Piece) (op : Bytes)
      → 3 * length op + 3 ≤ fuel
      → Ends left (suc (length op)) (get_compound fuel libc star tag op)
  of_form :
      (f : Form) (op : Bytes)
      → 3 * length op + 3 ≤ fuel
      → Ends left (suc (length op)) (get_form fuel libc f op)
  of_set :
      (sa : List Element) (op : Bytes)
      → 3 * length op + 2 ≤ fuel
      → Ends left (suc (length op)) (set_loop fuel libc sa op)
  of_list :
      (last : Bool) (op : Bytes)
      → 3 * length op + 2 ≤ fuel
      → Ends left (suc (length op)) (list_loop fuel libc last op)

close-Ends : (e : Element) (op : Bytes) → Ends left (suc (length op)) (close e op)
unfolding close
close-Ends e [] = tt
close-Ends e (c ∷ op) = ground arith

do_affix-Ends :
    (make : Bytes → Element) (op : Bytes) → Ends left (suc (length op)) (do_affix make op)
unfolding do_affix
do_affix-Ends make op = Ends-bind left left _ _ _ _ (get_str-Ends op) (λ x hx.
    Stops-bind left _ _ _ (bytes_of-Stops x.0)
      (λ s. Ends_mono left _ _ _ (omega arith) (close-Ends (make s) x.1)))

end_set-Ends : (sa : List Element) (op : Bytes) → Ends left (suc (length op)) (end_set sa op)
unfolding end_set
end_set-Ends [] op = tt
end_set-Ends (e ∷ []) [] = tt
end_set-Ends (e ∷ []) (c ∷ op) = omega arith
end_set-Ends (e ∷ f ∷ sa) [] = tt
end_set-Ends (e ∷ f ∷ sa) (c ∷ op) = omega arith

left-element_of : (x : RangeElement × Bytes) (n : ℕ) → length x.1 < n → left (element_of x) < n
unfolding element_of
left-element_of (range_of r, op) n h = h
left-element_of (atom_of s, op) n h = h

module _ (fuel : ℕ) (libc : Libc) (h : AllEnd libc fuel) where
  element_step :
      (op : Bytes)
      → 3 * length op + 1 ≤ suc fuel
      → Ends left (length op) (get_element (suc fuel) libc op)
  unfolding get_element
  element_step [] enough = tt
  element_step (c ∷ op) enough = elim (Bool-cases (c == b')')) [
    | inl e ↦ rw (get_element-closed fuel libc c op e) (omega arith)
    | inr e ↦ elim (Bool-cases (c == b'(')) [
      | inl opened ↦ rw (get_element-opened fuel libc c op e opened) (
          Ends-bind left left _ _ _ _ (get_str-Ends op) (λ x hx.
            Ends_mono left _ _ _ (omega arith) (h.of_compound (is_star x.0) x.0 x.1 (omega arith))))
      | inr plain ↦ rw (get_element-atom fuel libc c op e plain) (
          Ends-bind left left _ _ _ _ (get_str_cons-Ends c op)
            (λ x hx. Stops-bind left _ _ _ (bytes_of-Stops x.0) (λ s. omega arith)))
    ]
  ]

  compound_step :
      (star : Bool) (tag : Piece) (op : Bytes)
      → 3 * length op + 3 ≤ suc fuel
      → Ends left (suc (length op)) (get_compound (suc fuel) libc star tag op)
  unfolding get_compound tagged
  compound_step false tag op enough = Stops-bind left _ _ _ (bytes_of-Stops tag) (λ s.
      Ends-bind left left _ _ _ _ (h.of_list false op (omega arith))
        (λ x hx. Stops-bind left _ _ _ (bytes_of-Stops tag) (λ s. hx)))
  compound_step true tag [] enough = tt
  compound_step true tag (c ∷ op) enough = elim (Bool-cases (c == b')')) [
    | inl e ↦ rw (get_compound-any fuel libc c op tag e) (omega arith)
    | inr e ↦ rw (get_compound-form fuel libc c op tag e) (
        Ends-bind left left _ _ _ _ (get_str_cons-Ends c op)
          (λ x hx. Ends_mono left _ _ _ (omega arith) (h.of_form (form_of x.0) x.1 (omega arith))))
  ]

  form_step :
      (f : Form) (op : Bytes)
      → 3 * length op + 3 ≤ suc fuel
      → Ends left (suc (length op)) (get_form (suc fuel) libc f op)
  unfolding get_form
  form_step prefix_form op enough = do_affix-Ends prefix op
  form_step suffix_form op enough = do_affix-Ends suffix op
  form_step range_form op enough =
      Ends-bind left left _ _ _ _ (do_range-Ends libc op) (λ x hx. left-element_of x _ hx)
  form_step set_form op enough = h.of_set [] op (omega arith)
  form_step no_form op enough = tt

  member_Ends :
      (sa : List Element) (n : ℕ) (x : Option Element × Bytes)
      → length x.1 < n
      → 3 * n ≤ fuel + 1
      → Ends left (suc n) (next_member fuel libc sa x)
  member_Ends sa n (none, op) shorter enough = tt
  member_Ends sa n (some e, op) shorter enough =
      Ends_mono left _ _ _ (omega arith) (h.of_set (add_member sa e) op (omega arith))

  set_step :
      (sa : List Element) (op : Bytes)
      → 3 * length op + 2 ≤ suc fuel
      → Ends left (suc (length op)) (set_loop (suc fuel) libc sa op)
  unfolding set_loop
  set_step sa [] enough = end_set-Ends sa []
  set_step sa (c ∷ op) enough = elim (Bool-cases (c == b')')) [
    | inl e ↦ rw (set_loop-closed fuel libc c op sa e) (end_set-Ends sa (c ∷ op))
    | inr e ↦ rw (set_loop-member fuel libc c op sa e) (
        Ends-bind left left _ _ _ _ (h.of_element (c ∷ op) (omega arith))
          (λ x hx. member_Ends sa (suc (length op)) x hx (omega arith)))
  ]

  next_Ends :
      (n : ℕ) (x : Option Element × Bytes)
      → length x.1 < n
      → 3 * n ≤ fuel + 1
      → Ends left (suc n) (next_element fuel libc x)
  next_Ends n (none, op) shorter enough = omega arith
  next_Ends n (some e, op) shorter enough =
      Ends-bind left left _ _ _ _ (h.of_list true op (omega arith)) (λ y hy. omega arith)

  list_step :
      (last : Bool) (op : Bytes)
      → 3 * length op + 2 ≤ suc fuel
      → Ends left (suc (length op)) (list_loop (suc fuel) libc last op)
  unfolding list_loop end_list
  list_step true [] enough = tt
  list_step false [] enough = omega arith
  list_step last (c ∷ op) enough = rw (list_loop-element fuel libc c op last) (
      Ends-bind left left _ _ _ _ (h.of_element (c ∷ op) (omega arith))
        (λ x hx. next_Ends (suc (length op)) x hx (omega arith)))

all_end : (libc : Libc) (fuel : ℕ) → AllEnd libc fuel
all_end libc zero = record {
  of_element = λ op enough. absurd (omega arith);
  of_compound = λ star tag op enough. absurd (omega arith);
  of_form = λ f op enough. absurd (omega arith);
  of_set = λ sa op enough. absurd (omega arith);
  of_list = λ last op enough. absurd (omega arith);
}
all_end libc (suc fuel) =
    let h : AllEnd libc fuel = all_end libc fuel in
    record {
      of_element = element_step fuel libc h;
      of_compound = compound_step fuel libc h;
      of_form = form_step fuel libc h;
      of_set = set_step fuel libc h;
      of_list = list_step fuel libc h;
    }

-- On every text, well formed or not, `element_get` ends: its fuel does not run out. It fails, or reads
-- outside the text, or returns an element or a closing bracket and leaves less than it was given.
pub element_get-Ends : (libc : Libc) (op : Bytes) → Ends left (length op) (element_get libc op)
unfolding element_get
element_get-Ends libc op = (all_end libc (4 * length op + 4)).of_element op (omega arith)
