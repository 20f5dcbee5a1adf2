-- ===== src/Rulesets/Branches.antt =====
-- server/ruleset.c: the branches of `ruleset_find` and `ruleset_create`, and the server part of a tree.
use spocp.Prelude.{
  ℕ, suc, Bytes, List, [], ◌∷◌, Option, none, some, true, false, ◌==◌, ok, All, ◌≡◌, refl, inl, inr,
  arith,
}
use spocp.Octarr.{Octarr}
use spocp.Rulesets.{
  Info, ruleset_new, Level, null, level, Node, below, same, sign, sign_of, find_left, one_level,
  set_down,
}
use spocp.Octet.Compare.{oct2strcmp, memcmp}
use spocp.Rulesets.Order.{IsLevel, Rises}
use spocp.Rulesets.Writes.{set_left-Rises, find_left-IsLevel}
use spocp.Rulesets.Path.{path_split}
use spocp.Rulesets.Find.{
  Name, forward, is_slash, is_server, server, absolute, beginning_of, slashes, parts_of, find_loop,
  find_path, create_loop, with_server, create_below, create_server, create_root, create_path,
  ruleset_create,
}
use spocp.Rulesets.Created.{IsPart, Begins, option-cases, Found, create_loop-Made}

-- The root has the empty name, what is below it and the server part to its left are in order.
abbrev pub IsRoot : Level → Type 0
IsRoot null = ⊥
IsRoot (level l i d r) = (i.name ≡ []) × IsLevel d × Rises [] l

Begins-refl : (ps : List Bytes) → Begins ps ps
Begins-refl [] = tt
Begins-refl (p ∷ ps) = (refl, Begins-refl ps)

pub found : (r : Option Node) → Found r → (n : Node) × (r ≡ some n)
found none h = absurd h
found (some n) h = (n, refl)

-- The path is found below the rule set from which it was made.
pub find-create :
    (ps : List Bytes) (i : Info) (d : Level) (a : ℕ)
    → All IsPart ps
    → IsLevel d
    → (n : Node) × (find_loop ps (i, (create_loop ps d a).0) ≡ some n)
find-create ps i d a parts h = found _ ((create_loop-Made ps ps i d a parts h).1 (Begins-refl ps))

pub absolute_tests :
    (name : Name)
    → beginning_of name ≡ absolute
    → ((name.len == 0) ≡ false) × (is_server name ≡ false) × (is_slash name.val ≡ true)
unfolding beginning_of
absolute_tests name e = ground arith

pub server_tests :
    (name : Name) → beginning_of name ≡ server → ((name.len == 0) ≡ false) × (is_server name ≡ true)
unfolding beginning_of
server_tests name e = ground arith

pub find_path_lem :
    (name loc : Name) (nr n : Node) (o : Option Octarr) (k : ℕ)
    → path_split loc.val ≡ ok (o, k)
    → find_loop (parts_of o) nr ≡ some n
    → find_path name nr loc ≡ ok (some n, forward k loc)
unfolding find_path
find_path_lem name loc nr n o k e h = ground (arith, e, h)

pub create_absolute :
    (name : Name) (root : Level) (a : ℕ) (o : Option Octarr) (k : ℕ)
    → beginning_of name ≡ absolute
    → path_split (forward 1 name).val ≡ ok (o, k)
    → create_path name root a ≡ ok (create_root (parts_of o) root a, forward k (forward 1 name))
unfolding create_path
create_absolute name root a o k f e = let (_, s, sl) = absolute_tests name f in rw (s, sl, e) refl

pub create_with_server :
    (name : Name) (root : Level) (a : ℕ) (o : Option Octarr) (k : ℕ)
    → beginning_of name ≡ server
    → path_split (forward 2 name).val ≡ ok (o, k)
    → create_path name root a ≡ ok (create_server (parts_of o) root a, forward k (forward 2 name))
unfolding create_path
create_with_server name root a o k f e = let (_, s) = server_tests name f in rw (s, e) refl

pub create_some :
    (name : Name) (root : Level) (a : ℕ)
    → IsRoot root
    → (name.len == 0) ≡ false
    → ruleset_create name root a ≡ create_path name root a
unfolding ruleset_create
create_some name null a h e = absurd h
create_some name (level l i d r) a h e = rw e refl

-- The server part has its place to the left of the root.
pub IsRoot-with_server : (root : Level) (a : ℕ) → IsRoot root → IsRoot (with_server a root)
unfolding with_server ruleset_new
IsRoot-with_server null a h = h
IsRoot-with_server (level l i d r) a h = (h.0, h.1, (tt, tt, tt))

pub sign_root : (i : Info) → i.name ≡ [] → sign slashes i.name ≡ below
unfolding sign sign_of oct2strcmp
sign_root i e = rw e refl

pub sign_self : sign slashes slashes ≡ same
unfolding sign sign_of oct2strcmp memcmp
sign_self = refl

pub one_level-with_server :
    (root : Level) (a : ℕ)
    → IsRoot root
    → one_level slashes (with_server a root) ≡ some (ruleset_new a slashes, null)
unfolding with_server ruleset_new one_level find_left
one_level-with_server null a h = absurd h
one_level-with_server (level l i d r) a h = ground (arith, sign_root i h.0, sign_self)

pub IsRoot-set_down : (root v : Level) → IsLevel v → IsRoot root → IsRoot (set_down slashes v root)
unfolding set_down
IsRoot-set_down null v h k = k
IsRoot-set_down (level l i d r) v h k =
    rw (sign_root i k.0, set_down) (k.0, k.1, set_left-Rises slashes v h [] l k.2)

pub one_level-IsRoot :
    (root : Level) (n : Node) → IsRoot root → one_level slashes root ≡ some n → IsLevel n.1
unfolding one_level
one_level-IsRoot null n h k = absurd h
one_level-IsRoot (level l i d r) n h k =
    find_left-IsLevel slashes [] l n h.2 (ground (arith, sign_root i h.0, k))

-- The level with the server part, and the server part, from which `create_server` goes on.
pub server_entry :
    (ps : List Bytes) (root : Level) (a : ℕ)
    → IsRoot root
    → (from : Level) × (n : Node) × (b : ℕ) × (create_server ps root a
        ≡ (set_down slashes (create_loop ps n.1 b).0 from, (create_loop ps n.1 b).1))
      × (one_level slashes from ≡ some n)
      × IsRoot from
      × IsLevel n.1
unfolding create_server create_below
server_entry ps root a h = elim (option-cases (one_level slashes root)) [
  | inl e ↦ (
    with_server a root,
    (ruleset_new a slashes, null),
    suc a,
    ground (arith, e, one_level-with_server root a h),
    one_level-with_server root a h,
    IsRoot-with_server root a h,
    tt,
  )
  | inr (n, e) ↦ (root, n, a, ground (arith, e), e, h, one_level-IsRoot root n h e)
]
