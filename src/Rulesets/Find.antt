-- ===== src/Rulesets/Find.antt =====
-- server/ruleset.c, `ruleset_find` and `ruleset_create`. The name is an octet string in memory, and both
-- move it behind the path. The link from a rule set to the root is followed already: a call is given the
-- root's level. New rule sets get the addresses from a counter on.
use spocp.Prelude.{
  ℕ, suc, ◌+◌, ◌-◌, ◌%◌, Bytes, List, [], ◌∷◌, Option, none, some, Bool, false, ◌&&◌, ◌||◌, ◌==◌,
  leb, if◌then◌else◌, drop, Result, ok, ◌>>=◌, size_mod,
}
use spocp.Octarr.{Octarr}
use spocp.Rulesets.{
  ruleset_new, Level, null, level, end, item, Node, one_level, add_to_level, set_down,
}
use spocp.Rulesets.Path.{path_split}

-- An octet string in memory: `len`, and the bytes from `val` on, of which there are `len` at least.
pub record Name : Type 0 where
  pub len : ℕ
  pub val : Bytes

-- `val += k, len -= k`.
unfoldable pub forward : ℕ → Name → Name
forward k n = record { len = (n.len + size_mod - k) % size_mod; val = drop k n.val }

unfoldable pub is_slash : Bytes → Bool
is_slash [] = false
is_slash (c ∷ m) = c == b'/'

-- How a name begins.
pub data Beginning : Type 0 where
  top server absolute relative : Beginning

-- A name that begins with `//`.
unfoldable pub is_server : Name → Bool
unfolding is_slash
is_server n = leb 2 n.len && is_slash n.val && is_slash (drop 1 n.val)

unfoldable pub beginning_of : Name → Beginning
unfolding is_slash is_server
beginning_of n =
    if n.len == 0 || is_slash n.val && n.len == 1
    then top
    else if is_server n
    then server
    else if is_slash n.val
    then absolute
    else relative

abbrev pub slashes : Bytes
slashes = b'/' ∷ b'/' ∷ []

-- The elements, none of a null array.
abbrev pub parts_of : Option Octarr → List Bytes
parts_of none = []
parts_of (some oa) = oa.arr

-- The loop of `ruleset_find`.
unfoldable pub find_loop : List Bytes → Node → Option Node
find_loop [] n = some n
find_loop (p ∷ ps) n = elim (one_level p n.1) [ none ↦ none | some n' ↦ find_loop ps n' ]

-- `ruleset_find` from a rule set on, with the path in `loc`.
unfoldable pub find_path : Name → Node → Name → Result (Option Node × Name)
unfolding find_loop forward
find_path name nr loc = path_split loc.val >>= λ p. elim (find_loop (parts_of p.0) nr) [
  | none ↦ ok (none, name)
  | some n ↦ ok (some n, forward p.1 loc)
]

-- The rule set and the name behind its path, or null and the name as it was.
unfoldable pub ruleset_find : Name → Level → Result (Option Node × Name)
unfolding find_path beginning_of forward
ruleset_find name null = ok (none, name)
ruleset_find name (level l i d r) = elim (beginning_of name) [
  | top ↦ ok (some (i, d), name)
  | server ↦ elim (one_level slashes (level l i d r)) [
    | none ↦ ok (none, name)
    | some n ↦
        if name.len == 2 then ok (some n, forward 2 name) else find_path name n (forward 2 name)
  ]
  | absolute ↦ find_path name (i, d) (forward 1 name)
  | relative ↦ ok (none, name)
]

-- The loop of `ruleset_create` over the parts, on what is below a rule set: a rule set that is there is
-- entered, and one that is not is made.
unfoldable pub create_loop : List Bytes → Level → ℕ → Level × ℕ
create_loop [] d a = (d, a)
create_loop (p ∷ ps) d a = elim (one_level p d) [
  | some n ↦ (let (b, a') = create_loop ps n.1 a in (set_down p b d, a'))
  | none ↦ (let (b, a') = create_loop ps null (suc a) in (set_down p b (add_to_level p a d), a'))
]

-- `r->left = nr`, for the server part.
unfoldable pub with_server : ℕ → Level → Level
unfolding ruleset_new
with_server a null = null
with_server a (level l i d r) = level (item (ruleset_new a slashes) null end) i d r

-- The part of `ruleset_create` below the rule set of a name on the root's level.
unfoldable pub create_below : Bytes → List Bytes → Level → ℕ → Level × ℕ
unfolding create_loop
create_below s ps root a = elim (one_level s root) [
  | none ↦ (root, a)
  | some n ↦ (let (b, a') = create_loop ps n.1 a in (set_down s b root, a'))
]

unfoldable pub create_server : List Bytes → Level → ℕ → Level × ℕ
unfolding create_below with_server
create_server ps root a = elim (one_level slashes root) [
  | none ↦ create_below slashes ps (with_server a root) (suc a)
  | some n ↦ create_below slashes ps root a
]

unfoldable pub create_root : List Bytes → Level → ℕ → Level × ℕ
unfolding create_loop
create_root ps null a = (null, a)
create_root ps (level l i d r) a = let (b, a') = create_loop ps d a in (level l i b r, a')

-- `ruleset_create` behind the test for a name that is empty. A relative path starts at the root too.
unfoldable pub create_path : Name → Level → ℕ → Result ((Level × ℕ) × Name)
unfolding create_server create_root is_server forward
create_path name root a =
    let loc : Name =
      if is_server name
      then forward 2 name
      else if is_slash name.val
      then forward 1 name
      else name in
    path_split loc.val >>= λ p.
    let made =
      if is_server name
      then create_server (parts_of p.0) root a
      else create_root (parts_of p.0) root a in
    ok (made, forward p.1 loc)

-- The root, the next address, and the name behind the path.
unfoldable pub ruleset_create : Name → Level → ℕ → Result ((Level × ℕ) × Name)
unfolding create_path ruleset_new is_slash
ruleset_create name null a =
    let root = level end (ruleset_new a []) null end in
    if name.len == 0 || name.len == 1 && is_slash name.val
    then ok ((root, suc a), name)
    else create_path name root (suc a)
ruleset_create name (level l i d r) a =
    if name.len == 0 then ok ((level l i d r, a), name) else create_path name (level l i d r) a
