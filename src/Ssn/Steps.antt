-- ===== src/Ssn/Steps.antt =====
-- lib/ssn.c: the three ways through a node, as equations.
use spocp.Prelude.{
  ℕ, suc, Bytes, [], ◌∷◌, Option, Bool, true, false, ◌==◌, ltb, if◌then◌else◌, ◌≡◌, refl,
}
use spocp.Ssn.Lookup.{lookup}
use spocp.Ssn.{Ssn, null, node, insert_forward, end_at, with_left, with_right, with_down}

-- The string ends at a node that has another below it: it is a proper beginning of one that was
-- stored before.
unfoldable pub is_inner : Ssn → ℕ → Bytes → Bool
is_inner null c s = false
is_inner (node ch refc l r d nx) c s =
    if c == ch
    then elim s [
      | [] ↦ elim d [ null ↦ false | node ch' refc' l' r' d' nx' ↦ true ]
      | e ∷ s' ↦ is_inner d e s'
    ]
    else if ltb c ch
    then is_inner l c s
    else is_inner r c s

module _ (ch refc : ℕ) (l r d : Ssn) (nx : Option ℕ) (c : ℕ) where
  pub lookup-end : (c == ch) ≡ true → lookup (node ch refc l r d nx) c [] ≡ nx
  unfolding lookup
  lookup-end eq = rw eq refl

  pub lookup-down :
      (e : ℕ) (s : Bytes)
      → (c == ch) ≡ true
      → lookup (node ch refc l r d nx) c (e ∷ s) ≡ lookup d e s
  unfolding lookup
  lookup-down e s eq = rw eq refl

  pub lookup-left :
      (s : Bytes)
      → (c == ch) ≡ false
      → ltb c ch ≡ true
      → lookup (node ch refc l r d nx) c s ≡ lookup l c s
  unfolding lookup
  lookup-left s ne lt = rw (ne, lt) refl

  pub lookup-right :
      (s : Bytes)
      → (c == ch) ≡ false
      → ltb c ch ≡ false
      → lookup (node ch refc l r d nx) c s ≡ lookup r c s
  unfolding lookup
  lookup-right s ne gt = rw (ne, gt) refl

  pub is_inner-end :
      (c == ch) ≡ true
      → is_inner (node ch refc l r d nx) c []
        ≡ elim d [ null ↦ false | node ch' refc' l' r' d' nx' ↦ true ]
  unfolding is_inner
  is_inner-end eq = rw eq refl

  pub is_inner-down :
      (e : ℕ) (s : Bytes)
      → (c == ch) ≡ true
      → is_inner (node ch refc l r d nx) c (e ∷ s) ≡ is_inner d e s
  unfolding is_inner
  is_inner-down e s eq = rw eq refl

  pub is_inner-left :
      (s : Bytes)
      → (c == ch) ≡ false
      → ltb c ch ≡ true
      → is_inner (node ch refc l r d nx) c s ≡ is_inner l c s
  unfolding is_inner
  is_inner-left s ne lt = rw (ne, lt) refl

  pub is_inner-right :
      (s : Bytes)
      → (c == ch) ≡ false
      → ltb c ch ≡ false
      → is_inner (node ch refc l r d nx) c s ≡ is_inner r c s
  unfolding is_inner
  is_inner-right s ne gt = rw (ne, gt) refl

  pub insert_forward-end :
      (j : ℕ)
      → (c == ch) ≡ true
      → insert_forward (node ch refc l r d nx) c [] j ≡ end_at ch (suc refc) l r d nx j
  unfolding insert_forward
  insert_forward-end j eq = rw eq refl

  pub insert_forward-down :
      (e : ℕ) (s : Bytes) (j : ℕ)
      → (c == ch) ≡ true
      → insert_forward (node ch refc l r d nx) c (e ∷ s) j
        ≡ with_down ch (suc refc) l r d nx (insert_forward d e s j)
  unfolding insert_forward
  insert_forward-down e s j eq = rw eq refl

  pub insert_forward-left :
      (s : Bytes) (j : ℕ)
      → (c == ch) ≡ false
      → ltb c ch ≡ true
      → insert_forward (node ch refc l r d nx) c s j
        ≡ with_left ch refc l r d nx (insert_forward l c s j)
  unfolding insert_forward
  insert_forward-left s j ne lt = rw (ne, lt) refl

  pub insert_forward-right :
      (s : Bytes) (j : ℕ)
      → (c == ch) ≡ false
      → ltb c ch ≡ false
      → insert_forward (node ch refc l r d nx) c s j
        ≡ with_right ch refc l r d nx (insert_forward r c s j)
  unfolding insert_forward
  insert_forward-right s j ne gt = rw (ne, gt) refl
