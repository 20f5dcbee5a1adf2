-- ===== src/Tests/Trees.antt =====
-- Concrete trees for the theorems on lib/ssn.c.
use spocp.Prelude.{
  ℕ, ◌+◌, ◌<◌, Bytes, [], ◌∷◌, Option, none, some, codes, take, length, ◌≤◌, ok, true, false, ◌≡◌,
  ◌≢◌, refl, ◌↔◌, arith,
}
use spocp.Ssn.Delete.{ssn_delete_siblings}
use spocp.Ssn.Inner.{Misses, lookup-insert_forward_inner}
use spocp.Ssn.Lookup.{lookup}
use spocp.Ssn.Refine.{Represents, with_entry, ssn_insert-Represents, ssn_match-Represents}
use spocp.Ssn.Steps.{is_inner}
use spocp.Ssn.{Ssn, null, node, or_new, insert_forward, ssn_insert, ssn_match, ssn_delete, forward}
use spocp.Varr.Members.{Has}

-- The tree of "ab" with the junction 1 and of "c" with the junction 2.
abbrev two : Ssn
two =
    node b'a' 1 null (node b'c' 1 null null null (some 2)) (node b'b' 1 null null null (some 1))
      none

abbrev of_two : Bytes → Option ℕ
of_two [] = none
of_two (c ∷ s) = lookup two c s

two-Represents : Represents two of_two
two-Represents c s = refl

not_inner : is_inner two b'a' (codes "bd") ≡ false
unfolding is_inner
not_inner = refl

two_match : ssn_match two (codes "abz") forward ≡ 1 ∷ []
unfolding ssn_match
two_match = refl

ssn_insert-Represents_example :
    (t' : Ssn) × (ssn_insert two (codes "abd") forward 3 ≡ ok (or_new (of_two (codes "abd")) 3, t'))
    × Represents t' (with_entry of_two (codes "abd") (or_new (of_two (codes "abd")) 3))
ssn_insert-Represents_example =
    ssn_insert-Represents two of_two b'a' (codes "bd") 3 two-Represents not_inner

ssn_match-Represents_example :
    Has 1 (ssn_match two (codes "abz") forward)
    ↔ ((n : ℕ) × (n ≤ length (codes "bz")) × (of_two (b'a' ∷ take n (codes "bz")) ≡ some 1))
ssn_match-Represents_example = ssn_match-Represents two of_two b'a' (codes "bz") 1 two-Represents

inner : is_inner two b'a' [] ≡ true
unfolding is_inner
inner = refl

lookup-insert_forward_inner_example : Misses 3 two b'a' []
lookup-insert_forward_inner_example = lookup-insert_forward_inner 3 two b'a' [] inner

differ : (c d : ℕ) → c + 1 < d → c ≢ d
differ c d h e = absurd (omega (arith, e, h))

ssn_delete_siblings_example :
    let both = (insert_forward (insert_forward null b'a' (codes "b") 1).1 b'c' [] 2).1 in
    (lookup both b'c' [] ≡ some 2) × (ssn_delete both (codes "ab") forward ≡ ok (null, none))
ssn_delete_siblings_example =
    ssn_delete_siblings b'a' (codes "b") 1 b'c' [] 2 (differ b'a' b'c' (omega arith))

longer : lookup two b'a' (codes "b") ≡ some 1
unfolding lookup
longer = refl
