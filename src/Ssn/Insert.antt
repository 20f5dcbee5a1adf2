-- ===== src/Ssn/Insert.antt =====
-- lib/ssn.c: what `ssn_insert` stores, and what stays stored.
use spocp.Prelude.{
  ℕ, suc, Bytes, [], ◌∷◌, Option, none, some, true, false, ◌==◌, ltb, ==_iff, ==_refl, Bool-cases,
  ◌≡◌, ◌≢◌, refl, sym, ap₂, ◌∙◌, inl, inr,
}
use spocp.Ssn.Lookup.{lookup}
use spocp.Ssn.Steps.{
  is_inner, lookup-end, lookup-down, lookup-left, lookup-right, is_inner-end, is_inner-down,
  is_inner-left, is_inner-right, insert_forward-end, insert_forward-down, insert_forward-left,
  insert_forward-right,
}
use spocp.Ssn.{Ssn, null, node, chain, end_at, with_left, with_right, with_down, insert_forward}

pub lookup-chain : (c : ℕ) (s : Bytes) (j : ℕ) → lookup (chain c s j) c s ≡ some j
unfolding lookup chain
lookup-chain c [] j = rw (==_refl c) refl
lookup-chain c (d ∷ s) j = rw (==_refl c) (lookup-chain d s j)

-- What `ssn_insert` promises of its own string.
abbrev Stores : Ssn → ℕ → Bytes → ℕ → Type 0
Stores t c s j =
    is_inner t c s ≡ false → lookup (insert_forward t c s j).1 c s ≡ some (insert_forward t c s j).0

module _ (ch refc : ℕ) (l r d : Ssn) (nx : Option ℕ) (c j : ℕ) where
  Stores-end : (c == ch) ≡ true → Stores (node ch refc l r d nx) c [] j
  unfolding end_at
  Stores-end eq h =
      rw (insert_forward-end ch refc l r d nx c j eq)
        (here d (sym (is_inner-end ch refc l r d nx c eq) ∙ h))
    where
      here :
          (b : Ssn)
          → elim b [ null ↦ false | node ch' refc' l' r' d' nx' ↦ true ] ≡ false
          → lookup (end_at ch (suc refc) l r b nx j).1 c []
            ≡ some (end_at ch (suc refc) l r b nx j).0
      here null k = lookup-end ch (suc refc) l r null _ c eq
      here (node ch' refc' l' r' d' nx') k = cc

  Stores-off :
      (s : Bytes)
      → (c == ch) ≡ false
      → Stores l c s j
      → Stores r c s j
      → Stores (node ch refc l r d nx) c s j
  unfolding with_left with_right
  Stores-off s ne hl hr h = elim (Bool-cases (ltb c ch)) [
    | inl lt ↦ rw (insert_forward-left ch refc l r d nx c s j ne lt) (
        lookup-left ch refc _ r d nx c s ne lt
        ∙ hl (sym (is_inner-left ch refc l r d nx c s ne lt) ∙ h))
    | inr gt ↦ rw (insert_forward-right ch refc l r d nx c s j ne gt) (
        lookup-right ch refc l _ d nx c s ne gt
        ∙ hr (sym (is_inner-right ch refc l r d nx c s ne gt) ∙ h))
  ]

-- The string is stored with the junction that `ssn_insert` returns, unless it is a proper beginning of
-- one that was stored before.
pub lookup-insert_forward : (t : Ssn) (c : ℕ) (s : Bytes) (j : ℕ) → Stores t c s j
unfolding with_down
lookup-insert_forward null c s j h = unfold insert_forward in lookup-chain c s j
lookup-insert_forward (node ch refc l r d nx) c [] j h = elim (Bool-cases (c == ch)) [
  | inl eq ↦ Stores-end ch refc l r d nx c j eq h
  | inr ne ↦
      Stores-off ch refc l r d nx c j [] ne (lookup-insert_forward l c [] j)
        (lookup-insert_forward r c [] j) h
]
lookup-insert_forward (node ch refc l r d nx) c (e ∷ s) j h = elim (Bool-cases (c == ch)) [
  | inl eq ↦ rw (insert_forward-down ch refc l r d nx c e s j eq) (
      lookup-down ch _ l r _ nx c e s eq
      ∙ lookup-insert_forward d e s j (sym (is_inner-down ch refc l r d nx c e s eq) ∙ h))
  | inr ne ↦
      Stores-off ch refc l r d nx c j (e ∷ s) ne (lookup-insert_forward l c (e ∷ s) j)
        (lookup-insert_forward r c (e ∷ s) j) h
]

-- Two nodes of one byte in which a string is found alike.
lookup_alike :
    (ch refc refc' : ℕ) (l r d l' r' d' : Ssn) (nx nx' : Option ℕ) (c : ℕ) (s : Bytes)
    → ((c == ch) ≡ true
        → elim s [ [] ↦ nx | e ∷ t ↦ lookup d e t ] ≡ elim s [ [] ↦ nx' | e ∷ t ↦ lookup d' e t ])
    → ((c == ch) ≡ false → ltb c ch ≡ true → lookup l c s ≡ lookup l' c s)
    → ((c == ch) ≡ false → ltb c ch ≡ false → lookup r c s ≡ lookup r' c s)
    → lookup (node ch refc l r d nx) c s ≡ lookup (node ch refc' l' r' d' nx') c s
unfolding lookup
lookup_alike ch refc refc' l r d l' r' d' nx nx' c s same_here same_left same_right =
    elim (Bool-cases (c == ch)) [
      | inl eq ↦ rw eq (same_here eq)
      | inr ne ↦ elim (Bool-cases (ltb c ch)) [
        | inl lt ↦ rw (ne, lt) (same_left ne lt)
        | inr gt ↦ rw (ne, gt) (same_right ne gt)
      ]
    ]

-- Two strings with the same first byte differ behind it.
rest_differs :
    (ch c c' : ℕ) (s s' : Bytes)
    → (c == ch) ≡ true
    → (c' == ch) ≡ true
    → (c ∷ s) ≢ (c' ∷ s')
    → s ≢ s'
rest_differs ch c c' s s' eq eq' differ e =
    differ (ap₂ ◌∷◌ ((==_iff c ch).0 eq ∙ sym ((==_iff c' ch).0 eq')) e)

end_alike :
    (nx nx' : Option ℕ) (found : ℕ → Bytes → Option ℕ) (s' : Bytes)
    → [] ≢ s'
    → elim s' [ [] ↦ nx | e ∷ t ↦ found e t ] ≡ elim s' [ [] ↦ nx' | e ∷ t ↦ found e t ]
end_alike nx nx' found [] differ = absurd (differ refl)
end_alike nx nx' found (e ∷ t) differ = refl

below_alike :
    (nx : Option ℕ) (found found' : ℕ → Bytes → Option ℕ) (s s' : Bytes)
    → ((e : ℕ) (t : Bytes) → s ≢ (e ∷ t) → found e t ≡ found' e t)
    → s ≢ s'
    → elim s' [ [] ↦ nx | e ∷ t ↦ found e t ] ≡ elim s' [ [] ↦ nx | e ∷ t ↦ found' e t ]
below_alike nx found found' s [] same differ = refl
below_alike nx found found' s (e ∷ t) same differ = same e t differ

-- A new node of another byte has no string.
lookup_apart :
    (ch : ℕ) (d : Ssn) (nx : Option ℕ) (c : ℕ) (s : Bytes)
    → ((c == ch) ≡ true → elim s [ [] ↦ nx | e ∷ t ↦ lookup d e t ] ≡ none)
    → lookup (node ch 1 null null d nx) c s ≡ none
unfolding lookup
lookup_apart ch d nx c s here = elim (Bool-cases (c == ch)) [
  | inl eq ↦ rw eq (here eq)
  | inr ne ↦ elim (Bool-cases (ltb c ch)) [ inl lt ↦ rw (ne, lt) refl | inr gt ↦ rw (ne, gt) refl ]
]

lookup-chain_other :
    (c : ℕ) (s : Bytes) (j c' : ℕ) (s' : Bytes)
    → (c ∷ s) ≢ (c' ∷ s')
    → lookup (chain c s j) c' s' ≡ none
unfolding chain
lookup-chain_other c [] j c' s' differ = lookup_apart c null (some j) c' s' (λ eq.
    end_alike (some j) none (lookup null) s' (rest_differs c c c' [] s' (==_refl c) eq differ)
    ∙ none_below s')
  where
    none_below : (t : Bytes) → elim t [ [] ↦ none | e ∷ u ↦ lookup null e u ] ≡ none
    none_below [] = refl
    none_below (e ∷ u) = unfold lookup in refl
lookup-chain_other c (d ∷ s) j c' [] differ = lookup_apart c (chain d s j) none c' [] (λ eq. refl)
lookup-chain_other c (d ∷ s) j c' (d' ∷ s') differ =
    lookup_apart c (chain d s j) none c' (d' ∷ s') (λ eq.
      lookup-chain_other d s j d' s' (rest_differs c c c' (d ∷ s) (d' ∷ s') (==_refl c) eq differ))

-- What `ssn_insert` promises of another string.
abbrev Keeps : Ssn → ℕ → Bytes → ℕ → ℕ → Bytes → Type 0
Keeps t c s j c' s' =
    is_inner t c s ≡ false
    → (c ∷ s) ≢ (c' ∷ s')
    → lookup (insert_forward t c s j).1 c' s' ≡ lookup t c' s'

module _ (ch refc : ℕ) (l r d : Ssn) (nx : Option ℕ) (c j c' : ℕ) (s' : Bytes) where
  Keeps-end : (c == ch) ≡ true → Keeps (node ch refc l r d nx) c [] j c' s'
  unfolding end_at
  Keeps-end eq h differ =
      rw (insert_forward-end ch refc l r d nx c j eq)
        (here d (sym (is_inner-end ch refc l r d nx c eq) ∙ h))
    where
      here :
          (b : Ssn)
          → elim b [ null ↦ false | node ch' refc' l' r' d' nx' ↦ true ] ≡ false
          → lookup (end_at ch (suc refc) l r b nx j).1 c' s' ≡ lookup (node ch refc l r b nx) c' s'
      here null k =
          lookup_alike ch (suc refc) refc l r null l r null _ nx c' s'
            (λ eq'. end_alike _ nx (lookup null) s' (rest_differs ch c c' [] s' eq eq' differ))
            (λ _ _. refl) (λ _ _. refl)
      here (node ch' refc' l' r' d' nx') k = cc

  Keeps-down :
      (e : ℕ) (s : Bytes)
      → (c == ch) ≡ true
      → ((e' : ℕ) (t : Bytes) → Keeps d e s j e' t)
      → Keeps (node ch refc l r d nx) c (e ∷ s) j c' s'
  unfolding with_down
  Keeps-down e s eq hd h differ = rw (insert_forward-down ch refc l r d nx c e s j eq) (
      lookup_alike ch _ refc l r _ l r d nx nx c' s'
        (λ eq'.
          below_alike nx (lookup (insert_forward d e s j).1) (lookup d) (e ∷ s) s'
            (λ e' t. hd e' t (sym (is_inner-down ch refc l r d nx c e s eq) ∙ h))
            (rest_differs ch c c' (e ∷ s) s' eq eq' differ))
        (λ _ _. refl) (λ _ _. refl))

  Keeps-off :
      (s : Bytes)
      → (c == ch) ≡ false
      → Keeps l c s j c' s'
      → Keeps r c s j c' s'
      → Keeps (node ch refc l r d nx) c s j c' s'
  unfolding with_left with_right
  Keeps-off s ne hl hr h differ = elim (Bool-cases (ltb c ch)) [
    | inl lt ↦ rw (insert_forward-left ch refc l r d nx c s j ne lt) (
        lookup_alike ch refc refc _ r d l r d nx nx c' s' (λ _. refl)
          (λ _ _. hl (sym (is_inner-left ch refc l r d nx c s ne lt) ∙ h) differ) (λ _ _. refl))
    | inr gt ↦ rw (insert_forward-right ch refc l r d nx c s j ne gt) (
        lookup_alike ch refc refc l _ d l r d nx nx c' s' (λ _. refl) (λ _ _. refl)
          (λ _ _. hr (sym (is_inner-right ch refc l r d nx c s ne gt) ∙ h) differ))
  ]

-- Every other string is stored as before, unless the new one is a proper beginning of one that was
-- stored before.
pub lookup-insert_forward_other :
    (t : Ssn) (c : ℕ) (s : Bytes) (j c' : ℕ) (s' : Bytes) → Keeps t c s j c' s'
lookup-insert_forward_other null c s j c' s' h differ =
    unfold insert_forward lookup in lookup-chain_other c s j c' s' differ
lookup-insert_forward_other (node ch refc l r d nx) c [] j c' s' h differ =
    elim (Bool-cases (c == ch)) [
      | inl eq ↦ Keeps-end ch refc l r d nx c j c' s' eq h differ
      | inr ne ↦
          Keeps-off ch refc l r d nx c j c' s' [] ne (lookup-insert_forward_other l c [] j c' s')
            (lookup-insert_forward_other r c [] j c' s') h differ
    ]
lookup-insert_forward_other (node ch refc l r d nx) c (e ∷ s) j c' s' h differ =
    elim (Bool-cases (c == ch)) [
      | inl eq ↦
          Keeps-down ch refc l r d nx c j c' s' e s eq
            (λ e' t. lookup-insert_forward_other d e s j e' t) h differ
      | inr ne ↦
          Keeps-off ch refc l r d nx c j c' s' (e ∷ s) ne
            (lookup-insert_forward_other l c (e ∷ s) j c' s')
            (lookup-insert_forward_other r c (e ∷ s) j c' s') h differ
    ]
