-- ===== src/Rulesets/RoundTrip.antt =====
-- server/ruleset.c: what `ruleset_create` has made, `ruleset_find` finds.
use spocp.Prelude.{
  ℕ, Bytes, [], ◌∷◌, Option, some, true, false, ◌==◌, ok, drop, ◌≡◌, refl, ap, ◌∙◌, ◌⊎◌, inl, inr,
  arith,
}
use spocp.Octarr.{Octarr}
use spocp.Rulesets.{Info, Level, null, level, Chain, Node, one_level, set_down}
use spocp.Rulesets.Writes.{set_down_self}
use spocp.Rulesets.Path.{path_split}
use spocp.Rulesets.Find.{
  Name, forward, is_slash, is_server, server, absolute, beginning_of, slashes, parts_of, find_loop,
  ruleset_find, create_loop, create_root, ruleset_create,
}
use spocp.Rulesets.Created.{create_loop-IsLevel}
use spocp.Rulesets.Parts.{still-Ended, Ended, path_split_total}
use spocp.Rulesets.Branches.{
  IsRoot, find-create, absolute_tests, server_tests, find_path_lem, create_absolute,
  create_with_server, create_some, IsRoot-set_down, server_entry,
}

behind_slash : (m : Bytes) → is_slash m ≡ true → Ended m → Ended (drop 1 m)
unfolding is_slash
behind_slash [] e h = absurd h
behind_slash (c ∷ m) e h = still-Ended c m e h

server_slashes :
    (name : Name)
    → is_server name ≡ true
    → (is_slash name.val ≡ true) × (is_slash (drop 1 name.val) ≡ true)
unfolding is_server
server_slashes name e = ground arith

drop_two : (m : Bytes) → drop 1 (drop 1 m) ≡ drop 2 m
drop_two [] = refl
drop_two (c ∷ []) = refl
drop_two (c ∷ d ∷ m) = refl

forward-Ended :
    (name : Name)
    → Ended name.val
    → (is_slash name.val ≡ true → Ended (forward 1 name).val)
      × (is_server name ≡ true → Ended (forward 2 name).val)
unfolding forward
forward-Ended name h = (
  λ e. behind_slash name.val e h,
  λ e.
      let (first, second) = server_slashes name e in
      rw (← drop_two name.val)
        (behind_slash (drop 1 name.val) second (behind_slash name.val first h)),
)

find_absolute :
    (name : Name) (l r : Chain) (i : Info) (d : Level) (n : Node) (o : Option Octarr) (k : ℕ)
    → beginning_of name ≡ absolute
    → path_split (forward 1 name).val ≡ ok (o, k)
    → find_loop (parts_of o) (i, d) ≡ some n
    → ruleset_find name (level l i d r) ≡ ok (some n, forward k (forward 1 name))
unfolding ruleset_find
find_absolute name l r i d n o k f e h =
    rw (f, ruleset_find) (find_path_lem name (forward 1 name) (i, d) n o k e h)

find_server :
    (name : Name) (root : Level) (m n : Node) (o : Option Octarr) (k : ℕ)
    → beginning_of name ≡ server
    → (name.len == 2) ≡ false
    → one_level slashes root ≡ some m
    → path_split (forward 2 name).val ≡ ok (o, k)
    → find_loop (parts_of o) m ≡ some n
    → ruleset_find name root ≡ ok (some n, forward k (forward 2 name))
unfolding ruleset_find
find_server name null m n o k f len one e h = unfold one_level in cc
find_server name (level l i d r) m n o k f len one e h =
    ground (arith, f, len, one, find_path_lem name (forward 2 name) m n o k e h)

-- What is made, and found again.
abbrev pub Remade : Name → Level → ℕ → Type 0
Remade name root a =
    (root' : Level) × (b : ℕ) × (name' : Name) × (n : Node) × (ruleset_create name root a
      ≡ ok ((root', b), name'))
    × IsRoot root'
    × (ruleset_find name root' ≡ ok (some n, name'))

Remade-absolute :
    (name : Name) (root : Level) (a : ℕ)
    → IsRoot root
    → Ended name.val
    → beginning_of name ≡ absolute
    → Remade name root a
unfolding create_root
Remade-absolute name null a h ended f = absurd h
Remade-absolute name (level l i d r) a h ended f =
    let (some_len, _, slash) = absolute_tests name f in
    let (o, k, split, parts) = path_split_total _ ((forward-Ended name ended).0 slash) in
    let (n, found_it) = find-create (parts_of o) i d a parts h.1 in
    (
      level l i (create_loop (parts_of o) d a).0 r,
      (create_loop (parts_of o) d a).1,
      forward k (forward 1 name),
      n,
      create_some name (level l i d r) a h some_len
          ∙ create_absolute name (level l i d r) a o k f split,
      (h.0, create_loop-IsLevel (parts_of o) d a parts h.1, h.2),
      find_absolute name l r i _ n o k f split found_it,
    )

Remade-server :
    (name : Name) (root : Level) (a : ℕ)
    → IsRoot root
    → Ended name.val
    → beginning_of name ≡ server
    → (name.len == 2) ≡ false
    → Remade name root a
Remade-server name root a h ended f len =
    let (some_len, s) = server_tests name f in
    let (o, k, split, parts) = path_split_total _ ((forward-Ended name ended).1 s) in
    let (from, m, b, made, one, valid, below_m) = server_entry (parts_of o) root a h in
    let (n, found_it) = find-create (parts_of o) m.0 m.1 b parts below_m in
    (
      set_down slashes (create_loop (parts_of o) m.1 b).0 from,
      (create_loop (parts_of o) m.1 b).1,
      forward k (forward 2 name),
      n,
      create_some name root a h some_len
          ∙ create_with_server name root a o k f split
          ∙ ap (λ t. ok (t, forward k (forward 2 name))) made,
      IsRoot-set_down from _ (create_loop-IsLevel (parts_of o) m.1 b parts below_m) valid,
      find_server name _ _ n o k f len (set_down_self slashes _ m from one) split found_it,
    )

-- In a tree that is in order, `ruleset_create` of a name that begins with a `/`, and is longer than that
-- or than `//`, in memory with a byte that cannot stand in a path, returns a tree that is in order, in
-- which `ruleset_find` of the name finds a rule set. Both leave the same octets behind the path.
pub ruleset_find-ruleset_create :
    (name : Name) (root : Level) (a : ℕ)
    → IsRoot root
    → Ended name.val
    → (beginning_of name ≡ absolute) ⊎ (beginning_of name ≡ server) × ((name.len == 2) ≡ false)
    → Remade name root a
ruleset_find-ruleset_create name root a h ended (inl f) = Remade-absolute name root a h ended f
ruleset_find-ruleset_create name root a h ended (inr (f, len)) =
    Remade-server name root a h ended f len
