-- ===== src/Bcond/Parse.antt =====
-- lib/bcond.c: from a text to a definition (`parse_bcexp`, `bcdef_add`, `bcdef_get`).
use spocp.Bcond.{Stree, null, atom, list, Bcexp, ref, Bcdef, State, says, bcdef_find, transv_stree}
use spocp.Octet.Chars.{is_dirchar}
use spocp.Octet.Search.{octchr}
use spocp.Prelude.{
  ℕ, zero, suc, ◌+◌, ◌*◌, Bytes, codes, List, [], ◌∷◌, ◌++◌, Option, none, some, Bool, true, false,
  not, ◌==◌, ◌&&◌, ◌||◌, if◌then◌else◌, length, take, Result, Code, ok, err, fault, unfinished,
  syntax_error, unavailable, ◌>>=◌,
}
use spocp.Sexp.{Piece, piece, runaway, get_str}

-- An octet string that `get_str` has handed out.
unfoldable pub bytes_of : Piece → Result Bytes
bytes_of (piece s) = ok s
bytes_of runaway = fault

-- What may begin a list.
unfoldable pub begins_list : Stree → Bool
begins_list null = false
begins_list (atom val next) =
    says val (some (codes "ref"))
    || says val (some (codes "and"))
    || says val (some (codes "or"))
    || says val (some (codes "not"))
begins_list (list part next) = false

-- `ptr->next`.
unfoldable pub with_next : Stree → Stree → Stree
with_next null more = null
with_next (atom val next) more = atom val more
with_next (list part next) more = list part more

-- The bracket that closes a list is stepped over; behind the end of the text it is read all the same.
unfoldable pub close_list : Stree → Bytes → Result (Stree × Bytes)
close_list part [] = fault
close_list part (c ∷ sexp) = if c == b')' then ok (list part null, sexp) else err syntax_error

-- `parse_bcexp` and its loop over the parts of a list, with the rest of the text. A null pointer is
-- `err syntax_error`: that is the code that `bcdef_get` makes of it.
unfoldable mutual
  unfolding bytes_of close_list begins_list with_next

  pub parse_at : ℕ → Bytes → Result (Stree × Bytes)
  parse_at zero sexp = unfinished
  parse_at (suc fuel) [] = fault
  parse_at (suc fuel) (c ∷ sexp) =
      let inner = parse_parts fuel true sexp in
      if c == b'(' then (inner >>= λ x. close_list x.0 x.1) else elim (get_str (c ∷ sexp)) [
        | ok x ↦ bytes_of x.0 >>= λ val. ok (atom val null, x.1)
        | err code ↦ err syntax_error
        | fault ↦ fault
        | unfinished ↦ unfinished
      ]

  pub parse_parts : ℕ → (first : Bool) → Bytes → Result (Stree × Bytes)
  parse_parts zero first sexp = unfinished
  parse_parts (suc fuel) first [] = ok (null, [])
  parse_parts (suc fuel) first (c ∷ sexp) =
      if c == b')'
      then ok (null, c ∷ sexp)
      else (parse_at fuel (c ∷ sexp) >>= λ x.
          if first && not (begins_list x.0)
          then err syntax_error
          else (parse_parts fuel false x.1 >>= λ y. ok (with_next x.0 y.0, y.1)))

-- Two units of fuel for each octet and two more.
unfoldable pub parse_bcexp : Bytes → Result (Stree × Bytes)
unfolding parse_at
parse_bcexp sexp = parse_at (2 * length sexp + 2) sexp

-- Every byte may stand in a path.
all_dirchar : Bytes → Bool
unfolding is_dirchar
all_dirchar [] = true
all_dirchar (c ∷ s) = is_dirchar c && all_dirchar s

unfoldable pub bcspec_is : Bytes → Bool
unfolding all_dirchar
bcspec_is o = elim (octchr o b':') [ none ↦ false | some n ↦ all_dirchar (take n o) ]

-- The name of a reference; every failure has a code.
is_bcref : Bytes → Result Bytes
is_bcref [] = fault
is_bcref (c ∷ o) =
    if c == b'('
    then (get_str o >>= λ x. bytes_of x.0 >>= λ op.
        if says op (some (codes "ref"))
        then (get_str x.1 >>= λ y. bytes_of y.0 >>= λ name. close_ref name y.1)
        else err syntax_error)
    else err syntax_error
  where
    close_ref : Bytes → Bytes → Result Bytes
    close_ref name [] = fault
    close_ref name (b ∷ lc) = if b == b')' && length lc == 0 then ok name else err syntax_error

-- The tree of a text, and the text as it is left: the parser has moved its start.
unfoldable pub tree_of : Bytes → Result (Stree × Bytes)
unfolding parse_bcexp
tree_of [] = fault
tree_of (c ∷ data_) =
    if c == b'(' then parse_bcexp (c ∷ data_) else ok (atom (c ∷ data_) null, c ∷ data_)

abbrev pub is_ref : Bcexp → Bool
is_ref (ref self target) = true
is_ref _ = false

-- The name that a definition is given; `digest` is `make_name`, the SHA-1 of the text in hexadecimal
-- digits between two `_`.
unfoldable pub name_for : (digest : Bytes → Bytes) → Option Bytes → Bytes → Bytes
name_for digest none data_ = digest data_
name_for digest (some []) data_ = digest data_
name_for digest (some (c ∷ name)) data_ = c ∷ name

-- A definition that has a name is put at the end of the list.
unfoldable pub enter :
    (digest : Bytes → Bytes) (name : Option Bytes) (data_ : Bytes) (address : ℕ) (bce : Bcexp)
    → State
    → Bcdef × State
unfolding name_for
enter digest name data_ address bce s =
    if is_ref bce
    then (record { address = address; name = none; exp = some bce; users = [] }, s)
    else let bcd : Bcdef = record {
      address = address;
      name = some (name_for digest name data_);
      exp = some bce;
      users = [];
    } in
      (bcd, record { defs = s.defs ++ (bcd ∷ []); free = s.free })

-- The new definition has the next free address, and is not in the list while its text is translated.
unfoldable pub bcdef_add :
    (digest : Bytes → Bytes) (p : List Bytes) (name : Option Bytes) (data_ : Bytes)
    → State
    → Result (Option Bcdef × State)
unfolding tree_of enter
bcdef_add digest p name data_ s = elim (tree_of data_) [
  | err code ↦ ok (none, s)
  | ok x ↦ transv_stree p x.0 (record { defs = s.defs; free = suc s.free }) >>= λ y. elim y.0 [
    | none ↦ ok (none, y.1)
    | some bce ↦ (let z = enter digest name x.1 s.free bce y.1 in ok (some z.0, z.1))
  ]
  | fault ↦ fault
  | unfinished ↦ unfinished
]

-- The address of the definition, none for a null pointer, and the code where one is set.
unfoldable pub bcdef_get :
    (digest : Bytes → Bytes) (p : List Bytes) (o : Bytes)
    → State
    → Result (Option ℕ × Option Code × State)
unfolding is_bcref bcdef_add
bcdef_get digest p o s =
    if says o (some (codes "NULL")) then ok (none, none, s) else elim (is_bcref o) [
      | ok name ↦ elim (bcdef_find s.defs name) [
        | none ↦ ok (none, some unavailable, s)
        | some t ↦ ok (some t, none, s)
      ]
      | err code ↦ bcdef_add digest p none o s >>= λ x. elim x.0 [
        | none ↦ ok (none, some syntax_error, x.1)
        | some bcd ↦ ok (some bcd.address, none, x.1)
      ]
      | fault ↦ fault
      | unfinished ↦ unfinished
    ]
