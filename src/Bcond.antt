-- ===== src/Bcond.antt =====
-- lib/bcond.c: boundary conditions. A rule may ask for a condition, a Boolean expression over tests of
-- plug-ins and references to other definitions, which has a text and a form in memory. There is no
-- persistent store (`dbc` is null), and memory is never short.
pub mod Parse
pub mod Eval
pub mod Check
pub mod Ends
pub mod Store
pub mod Added
pub mod Names
pub mod Boolean
pub mod Endless
pub mod First
use spocp.Octet.Compare.{oct2strcmp}
use spocp.Octet.Search.{octchr}
use spocp.Prelude.{
  ℕ, suc, ◌+◌, Bytes, codes, List, [], ◌∷◌, ◌++◌, Option, none, some, Bool, true, false, ◌==◌,
  if◌then◌else◌, take, drop, Result, ok, fault, ◌>>=◌,
}

-- `stree_t`: an atom with its octets, or a list with its parts; and what is next to it.
pub data Stree : Type 0 where
  null : Stree
  atom : (val : Bytes) (next : Stree) → Stree
  list : (part next : Stree) → Stree

-- `bcexp_t` and an array of them. A specification has the index of its plug-in in the list of plug-ins;
-- a reference has its own address and that of the definition it refers to. `parent` is not read.
mutual
  pub data Bcexp : Type 0 where
    spec : (plugin : ℕ) (name type_specific : Bytes) → Bcexp
    and or : Bcexps → Bcexp
    not : Bcexp → Bcexp
    ref : (self target : ℕ) → Bcexp

  pub data Bcexps : Type 0 where
    nil : Bcexps
    cons : Bcexp → Bcexps → Bcexps

-- `bcdef_t` with its address; the links to its neighbours are its place in the list.
pub record Bcdef : Type 0 where
  pub address : ℕ
  pub name : Option Bytes
  pub exp : Option Bcexp
  pub users : List ℕ

-- The list of definitions, and the next free address.
pub record State : Type 0 where
  pub defs : List Bcdef
  pub free : ℕ

-- `oct2strcmp(o, s) == 0`.
abbrev pub says : Bytes → Option Bytes → Bool
says o s = oct2strcmp (some o) s == 0

-- `plugin_match` of lib/plugin.c on the names of the plug-ins, in their order.
unfoldable pub plugin_match : List Bytes → Bytes → Option ℕ
plugin_match [] o = none
plugin_match (p ∷ plt) o =
    if says o (some p)
    then some 0
    else elim (plugin_match plt o) [ none ↦ none | some i ↦ some (suc i) ]

unfoldable pub bcspec_new : List Bytes → Bytes → Option Bcexp
unfolding plugin_match
bcspec_new plt o = elim (octchr o b':') [
  | none ↦ none
  | some n ↦ elim (plugin_match plt (take n o)) [
    | none ↦ none
    | some p ↦ some (spec p (take n o) (drop (suc n) o))
  ]
]

-- The address of the first definition with the name.
unfoldable pub bcdef_find : List Bcdef → Bytes → Option ℕ
bcdef_find [] pattern = none
bcdef_find (d ∷ defs) pattern =
    if says pattern d.name then some d.address else bcdef_find defs pattern

-- `bcd->users = varr_add(bcd->users, bce)` for the definition at an address.
unfoldable pub add_user : List Bcdef → (target user : ℕ) → List Bcdef
add_user [] target user = []
add_user (d ∷ defs) target user =
    if d.address == target
    then record { address = d.address; name = d.name; exp = d.exp; users = d.users ++ (user ∷ []) }
      ∷ defs
    else d ∷ add_user defs target user

-- A function that translates a tree, in a state; `none` is a null pointer.
abbrev pub Translation : Type 0 → Type 0
Translation A = State → Result (Option A × State)

-- `val` of a tree; that of a list has no octets.
unfoldable pub val_of : Stree → Bytes
val_of null = []
val_of (atom val next) = val
val_of (list part next) = []

unfoldable pub next_of : Stree → Stree
next_of null = null
next_of (atom val next) = next
next_of (list part next) = next

unfoldable pub is_null : Stree → Bool
is_null null = true
is_null (atom val next) = false
is_null (list part next) = false

-- A reference to a definition that is in the list, which learns of it.
unfoldable pub refer : Bytes → Translation Bcexp
unfolding bcdef_find add_user
refer name s = elim (bcdef_find s.defs name) [
  | none ↦ ok (none, s)
  | some t ↦ ok (some (ref s.free t), record { defs = add_user s.defs t s.free; free = suc s.free })
]

-- The result of a part, put into an expression.
unfoldable pub wrap : {A : Type 0} → (A → Bcexp) → Translation A → Translation Bcexp
wrap make part s = part s >>= λ x. ok (elim x.0 [ none ↦ none | some a ↦ some (make a) ], x.1)

-- An expression before those of the rest.
before : Bcexp → Result (Option Bcexps × State) → Result (Option Bcexps × State)
before e rest = rest >>= λ y. ok (elim y.0 [ none ↦ none | some es ↦ some (cons e es) ], y.1)

-- One tree and those next to it, up to the first that has no translation.
unfoldable pub both : Translation Bcexp → Translation Bcexps → Translation Bcexps
unfolding before
both one rest s = one s >>= λ x. elim x.0 [ none ↦ ok (none, x.1) | some e ↦ before e (rest x.1) ]

-- An atom with something next to it is an operator.
unfoldable pub operator : Bytes → Stree → Translation Bcexp × Translation Bcexps → Translation Bcexp
unfolding refer wrap val_of next_of is_null
operator val next rest =
    if says val (some (codes "ref"))
    then refer (val_of next)
    else if says val (some (codes "and"))
    then wrap and rest.1
    else if says val (some (codes "or"))
    then wrap or rest.1
    else if says val (some (codes "not"))
    then (if is_null (next_of next) then wrap not rest.0 else λ s. ok (none, s))
    else λ s. ok (none, s)

unfoldable pub specify : List Bytes → Bytes → Translation Bcexp
unfolding bcspec_new
specify plt val s = ok (bcspec_new plt val, s)

-- `transv_stree` of a tree, and of it and all those next to it, as the loops of `and` and `or` do.
unfoldable pub transv : List Bytes → Stree → Translation Bcexp × Translation Bcexps
unfolding both operator specify is_null
transv plt null = (λ s. fault, λ s. ok (some nil, s))
transv plt (atom val next) =
    let rest = transv plt next in
    let one = if is_null next then specify plt val else operator val next rest in
    (one, both one rest.1)
transv plt (list part next) = let one = (transv plt part).0 in (one, both one (transv plt next).1)

unfoldable pub transv_stree : List Bytes → Stree → Translation Bcexp
unfolding transv
transv_stree plt st = (transv plt st).0
