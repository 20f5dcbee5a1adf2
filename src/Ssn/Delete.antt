-- ===== src/Ssn/Delete.antt =====
-- lib/ssn.c: what `ssn_delete` takes with a string.
use spocp.Prelude.{
  ℕ, Bytes, [], ◌∷◌, Option, none, some, false, ◌==◌, ==_iff, ==_refl, ltb, Bool-cases, ok, ◌≡◌,
  ◌≢◌, refl, sym, ◌∙◌, inl, inr,
}
use spocp.Ssn.Insert.{lookup-chain}
use spocp.Ssn.Lookup.{lookup}
use spocp.Ssn.Steps.{lookup-left, lookup-right, insert_forward-left, insert_forward-right}
use spocp.Ssn.{
  Ssn, null, node, chain, insert_forward, with_left, with_right, ssn_delete, delete_from, forward,
}

-- The second string goes to the left or to the right of the first, whose node has the counter 1.
beside :
    (c : ℕ) (d0 : Ssn) (nx : Option ℕ) (s : Bytes) (d : ℕ) (t : Bytes) (j : ℕ)
    → (d == c) ≡ false
    → let both = (insert_forward (node c 1 null null d0 nx) d t j).1 in
      (lookup both d t ≡ some j) × (ssn_delete both (c ∷ s) forward ≡ ok (null, none))
unfolding with_left with_right ssn_delete delete_from
beside c d0 nx s d t j ne = elim (Bool-cases (ltb d c)) [
  | inl lt ↦ rw (insert_forward-left c 1 null null d0 nx d t j ne lt) (
    lookup-left c 1 (insert_forward null d t j).1 null d0 nx d t ne lt ∙ stored,
    rw (==_refl c) refl,
  )
  | inr gt ↦ rw (insert_forward-right c 1 null null d0 nx d t j ne gt) (
    lookup-right c 1 null (insert_forward null d t j).1 d0 nx d t ne gt ∙ stored,
    rw (==_refl c) refl,
  )
]
  where
    stored : lookup (insert_forward null d t j).1 d t ≡ some j
    stored = unfold insert_forward in lookup-chain d t j

-- Two strings with different first bytes are inserted forward into the empty tree, and the first is
-- deleted: the second was stored, and the tree that is left is empty.
pub ssn_delete_siblings :
    (c : ℕ) (s : Bytes) (i d : ℕ) (t : Bytes) (j : ℕ)
    → c ≢ d
    → let both = (insert_forward (insert_forward null c s i).1 d t j).1 in
      (lookup both d t ≡ some j) × (ssn_delete both (c ∷ s) forward ≡ ok (null, none))
ssn_delete_siblings c s i d t j differ = by_chain s
  where
    other : (d == c) ≡ false
    other = elim (Bool-cases (d == c)) [
      | inl e ↦ absurd (differ (sym ((==_iff d c).0 e)))
      | inr n ↦ n
    ]

    by_chain :
        (u : Bytes)
        → let both = (insert_forward (insert_forward null c u i).1 d t j).1 in
          (lookup both d t ≡ some j) × (ssn_delete both (c ∷ u) forward ≡ ok (null, none))
    by_chain [] = unfold insert_forward chain in beside c null (some i) [] d t j other
    by_chain (e ∷ u) =
        unfold insert_forward chain in beside c (chain e u i) none (e ∷ u) d t j other
