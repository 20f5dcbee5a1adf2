-- ===== src/Element.antt =====
-- lib/input.c and lib/element.c: the elements of an s-expression, the parser `element_get`, and the
-- printer `element_print`. A parser takes the octets left and returns the octets left behind it.
pub mod Print
pub mod Steps
pub mod Text
pub mod Reads
pub mod RoundTrip
pub mod Loss
pub mod Ends
use mathlib.Core.List.{reverse}
use spocp.Prelude.{
  ℕ, zero, suc, ◌+◌, ◌*◌, Bytes, List, [], ◌∷◌, ◌++◌, Option, none, some, Bool, true, false, ◌==◌,
  if◌then◌else◌, length, same_bytes, codes, Result, ok, err, fault, unfinished, syntax_error, ◌>>=◌,
}
use spocp.Range.{SpocpRange, Libc, RangeElement, range_of, atom_of, bytes_of, do_range}
use spocp.Sexp.{Piece, piece, runaway, get_str}

-- `element_t`: a tree, since no element stands in two places. The links to the parent are left out.
-- The array of a set is `nil` for a null pointer; no array of no elements is ever stored.
mutual
  pub data Element : Type 0 where
    atom : Bytes → Element
    list : Elements → Element
    set : Elements → Element
    prefix : Bytes → Element
    suffix : Bytes → Element
    range : SpocpRange → Element
    any : Element

  pub data Elements : Type 0 where
    nil : Elements
    cons : Element → Elements → Elements

abbrev pub to_list : Elements → List Element
to_list nil = []
to_list (cons e es) = e ∷ to_list es

abbrev pub of_list : List Element → Elements
of_list [] = nil
of_list (e ∷ es) = cons e (of_list es)

-- The closing bracket that `do_prefix` and `do_suffix` want.
close : Element → Bytes → Result (Option Element × Bytes)
close e [] = fault
close e (c ∷ op) = if c == b')' then ok (some e, op) else err syntax_error

-- `do_prefix` and `do_suffix`: one atom and a closing bracket.
do_affix : (Bytes → Element) → Bytes → Result (Option Element × Bytes)
unfolding close
do_affix make op = do x ← get_str op; s ← bytes_of x.0; close (make s) x.1

element_of : RangeElement × Bytes → Option Element × Bytes
element_of (range_of r, op) = (some (range r), op)
element_of (atom_of s, op) = (some (atom s), op)

-- `varr_or` of two sets of elements with nothing in common; the second is emptied from its end.
join_sets : List Element → List Element → List Element
join_sets [] b = b
join_sets (x ∷ a) b = x ∷ (a ++ reverse b)

-- What `get_set` adds to the members so far.
unfoldable pub add_member : List Element → Element → List Element
unfolding join_sets
add_member sa (set members) = join_sets sa (to_list members)
add_member sa e = sa ++ (e ∷ [])

-- The end of `get_set`. A single member is taken out of its array, but only the local pointer is
-- set to it, so the element of the set keeps its null array.
unfoldable pub end_set : List Element → Bytes → Result (Option Element × Bytes)
end_set [] op = fault
end_set (e ∷ []) [] = fault
end_set (e ∷ []) (c ∷ op) = ok (some (set nil), op)
end_set (e ∷ f ∷ sa) [] = fault
end_set (e ∷ f ∷ sa) (c ∷ op) = ok (some (set (of_list (e ∷ f ∷ sa))), op)

-- What stands behind `(1:*`.
pub data Form : Type 0 where
  prefix_form suffix_form range_form set_form no_form : Form

unfoldable pub form_of : Piece → Form
form_of runaway = no_form
form_of (piece s) =
    if same_bytes s (codes "prefix")
    then prefix_form
    else if same_bytes s (codes "suffix")
    then suffix_form
    else if same_bytes s (codes "range")
    then range_form
    else if same_bytes s (codes "set")
    then set_form
    else no_form

unfoldable pub is_star : Piece → Bool
is_star (piece (c ∷ [])) = c == b'*'
is_star _ = false

-- The start of `do_list`: the tag is copied into the first element.
tagged : Piece → Elements × Bytes → Result (Option Element × Bytes)
tagged tag x = bytes_of tag >>= λ s. ok (some (list (cons (atom s) x.0)), x.1)

abbrev pub append_first : Element → Elements × Bytes → Result (Elements × Bytes)
append_first e x = ok (cons e x.0, x.1)

-- The text ends before a closing bracket: an error if the last round has read an element.
end_list : Bool → Result (Elements × Bytes)
end_list true = err syntax_error
end_list false = ok (nil, [])

unfoldable mutual
  unfolding do_affix element_of add_member end_set form_of is_star tagged end_list

  -- `element_get`. The element is none at a closing bracket.
  pub get_element : ℕ → Libc → Bytes → Result (Option Element × Bytes)
  get_element zero libc op = unfinished
  get_element (suc fuel) libc [] = err syntax_error
  get_element (suc fuel) libc (c ∷ op) = elim (c == b')') [
    | true ↦ ok (none, op)
    | false ↦ elim (c == b'(') [
      | true ↦ get_str op >>= λ x. get_compound fuel libc (is_star x.0) x.0 x.1
      | false ↦ get_str (c ∷ op) >>= λ x. bytes_of x.0 >>= λ s. ok (some (atom s), x.1)
    ]
  ]

  -- A list with its tag, or what stands behind a star.
  pub get_compound : ℕ → Libc → Bool → Piece → Bytes → Result (Option Element × Bytes)
  get_compound zero libc star tag op = unfinished
  get_compound (suc fuel) libc false tag op =
      bytes_of tag >>= λ s. list_loop fuel libc false op >>= λ x. tagged tag x
  get_compound (suc fuel) libc true tag [] = fault
  get_compound (suc fuel) libc true tag (c ∷ op) = elim (c == b')') [
    | true ↦ ok (some any, op)
    | false ↦ get_str (c ∷ op) >>= λ x. get_form fuel libc (form_of x.0) x.1
  ]

  pub get_form : ℕ → Libc → Form → Bytes → Result (Option Element × Bytes)
  get_form zero libc f op = unfinished
  get_form (suc fuel) libc prefix_form op = do_affix prefix op
  get_form (suc fuel) libc suffix_form op = do_affix suffix op
  get_form (suc fuel) libc range_form op = do_range libc op >>= λ x. ok (element_of x)
  get_form (suc fuel) libc set_form op = set_loop fuel libc [] op
  get_form (suc fuel) libc no_form op = err syntax_error

  -- `get_set`; `sa` holds the members so far.
  pub set_loop : ℕ → Libc → List Element → Bytes → Result (Option Element × Bytes)
  set_loop zero libc sa op = unfinished
  set_loop (suc fuel) libc sa [] = end_set sa []
  set_loop (suc fuel) libc sa (c ∷ op) = elim (c == b')') [
    | true ↦ end_set sa (c ∷ op)
    | false ↦ get_element fuel libc (c ∷ op) >>= λ x. elim x.0 [
      | none ↦ fault
      | some e ↦ set_loop fuel libc (add_member sa e) x.1
    ]
  ]

  -- The loop of `do_list`; the flag says that an element was read in the round before.
  pub list_loop : ℕ → Libc → Bool → Bytes → Result (Elements × Bytes)
  list_loop zero libc last op = unfinished
  list_loop (suc fuel) libc last [] = end_list last
  list_loop (suc fuel) libc last (c ∷ op) = get_element fuel libc (c ∷ op) >>= λ x. elim x.0 [
    | none ↦ ok (nil, x.1)
    | some e ↦ list_loop fuel libc true x.1 >>= λ y. append_first e y
  ]

-- Enough fuel for every text.
unfoldable pub element_get : Libc → Bytes → Result (Option Element × Bytes)
unfolding get_element
element_get libc op = get_element (4 * length op + 4) libc op
