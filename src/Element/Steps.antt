-- ===== src/Element/Steps.antt =====
-- lib/input.c: the branches of `element_get` and of its loops as equations, one step of fuel each.
use spocp.Element.{
  Element, atom, any, Elements, nil, add_member, end_set, form_of, is_star, append_first,
  get_element, get_compound, get_form, set_loop, list_loop,
}
use spocp.Prelude.{
  ℕ, suc, Bytes, List, ◌∷◌, Option, none, some, Bool, true, false, ◌==◌, Result, ok, fault, ◌>>=◌,
  ◌≡◌, refl,
}
use spocp.Range.{Libc, bytes_of}
use spocp.Sexp.{Piece, get_str}

module _ (fuel : ℕ) (libc : Libc) (c : ℕ) (op : Bytes) where
  pub get_element-closed : (c == b')') ≡ true → get_element (suc fuel) libc (c ∷ op) ≡ ok (none, op)
  unfolding get_element get_compound set_loop list_loop
  get_element-closed e = rw (e, get_element, get_compound, set_loop) refl

  pub get_element-opened :
      (c == b')') ≡ false
      → (c == b'(') ≡ true
      → get_element (suc fuel) libc (c ∷ op)
        ≡ (get_str op >>= λ x. get_compound fuel libc (is_star x.0) x.0 x.1)
  unfolding get_element get_compound set_loop list_loop
  get_element-opened e o = rw (e, o, get_element) refl

  pub get_element-atom :
      (c == b')') ≡ false
      → (c == b'(') ≡ false
      → get_element (suc fuel) libc (c ∷ op)
        ≡ (get_str (c ∷ op) >>= λ x. bytes_of x.0 >>= λ s. ok (some (atom s), x.1))
  unfolding get_element get_compound set_loop list_loop
  get_element-atom e o = rw (e, o, get_element) refl

  pub get_compound-any :
      (tag : Piece)
      → (c == b')') ≡ true
      → get_compound (suc fuel) libc true tag (c ∷ op) ≡ ok (some any, op)
  unfolding get_element get_compound set_loop list_loop
  get_compound-any tag e = rw (e, get_element, get_compound, set_loop) refl

  pub get_compound-form :
      (tag : Piece)
      → (c == b')') ≡ false
      → get_compound (suc fuel) libc true tag (c ∷ op)
        ≡ (get_str (c ∷ op) >>= λ x. get_form fuel libc (form_of x.0) x.1)
  unfolding get_element get_compound set_loop list_loop
  get_compound-form tag e = rw (e, get_element, get_compound, set_loop) refl

  pub set_loop-closed :
      (sa : List Element)
      → (c == b')') ≡ true
      → set_loop (suc fuel) libc sa (c ∷ op) ≡ end_set sa (c ∷ op)
  unfolding get_element get_compound set_loop list_loop
  set_loop-closed sa e = rw (e, get_element, get_compound, set_loop) refl

-- What `get_set` does with a member that it has read.
abbrev pub next_member :
    ℕ → Libc → List Element → Option Element × Bytes → Result (Option Element × Bytes)
next_member fuel libc sa x = elim x.0 [
  | none ↦ fault
  | some e ↦ set_loop fuel libc (add_member sa e) x.1
]

-- What `do_list` does with an element that it has read.
abbrev pub next_element : ℕ → Libc → Option Element × Bytes → Result (Elements × Bytes)
next_element fuel libc x = elim x.0 [
  | none ↦ ok (nil, x.1)
  | some e ↦ list_loop fuel libc true x.1 >>= λ y. append_first e y
]

module _ (fuel : ℕ) (libc : Libc) (c : ℕ) (op : Bytes) where
  pub set_loop-member :
      (sa : List Element)
      → (c == b')') ≡ false
      → set_loop (suc fuel) libc sa (c ∷ op)
        ≡ (get_element fuel libc (c ∷ op) >>= λ x. next_member fuel libc sa x)
  unfolding get_element get_compound set_loop list_loop
  set_loop-member sa e = rw (e, get_element, get_compound, set_loop) refl

  pub list_loop-element :
      (last : Bool)
      → list_loop (suc fuel) libc last (c ∷ op)
        ≡ (get_element fuel libc (c ∷ op) >>= λ x. next_element fuel libc x)
  unfolding get_element get_compound set_loop list_loop
  list_loop-element last = refl
