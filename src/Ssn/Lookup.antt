-- ===== src/Ssn/Lookup.antt =====
-- lib/ssn.c: `ssn_match` finds the stored strings that its string begins with.
use spocp.Prelude.{
  ℕ, zero, suc, ◌≤◌, Bytes, List, [], ◌∷◌, ◌++◌, Option, none, some, ◌==◌, ltb, length, take,
  if◌then◌else◌, Bool-cases, ◌≡◌, refl, sym, ap, ◌∙◌, inl, inr, ◌↔◌, arith,
}
use spocp.Ssn.{Ssn, null, node, match_from, junctions}
use spocp.Varr.Members.{Has, Has-append}

take-nil : (n : ℕ) → take {A = ℕ} n [] ≡ []
take-nil zero = refl
take-nil (suc n) = refl

-- The junction of a string that is stored in the tree.
unfoldable pub lookup : Ssn → ℕ → Bytes → Option ℕ
lookup null c s = none
lookup (node ch refc l r d nx) c s =
    if c == ch
    then elim s [ [] ↦ nx | e ∷ s' ↦ lookup d e s' ]
    else if ltb c ch
    then lookup l c s
    else lookup r c s

-- A beginning of the string, of one byte at least, is stored with this junction.
abbrev pub PrefixStored : Ssn → ℕ → Bytes → ℕ → Type 0
PrefixStored t c s j = (n : ℕ) × (n ≤ length s) × (lookup t c (take n s) ≡ some j)

pub Has-junctions : (nx : Option ℕ) (j : ℕ) → Has j (junctions nx) ↔ (nx ≡ some j)
unfolding junctions
Has-junctions none j = (λ h. absurd h, λ e. cc)
Has-junctions (some i) j = (λ h. elim h [ inl e ↦ ap some (sym e) | inr f ↦ absurd f ], λ e. inl cc)

-- A node with the byte that is looked for: its own junction, or one from the tree below it.
here_iff :
    (nx : Option ℕ) (found : ℕ → Bytes → List ℕ) (stored : ℕ → Bytes → Option ℕ) (s : Bytes) (j : ℕ)
    → ((e : ℕ) (s' : Bytes)
        → Has j (found e s') ↔ ((n : ℕ) × (n ≤ length s') × (stored e (take n s') ≡ some j)))
    → Has j (junctions nx ++ elim s [ [] ↦ [] | e ∷ s' ↦ found e s' ])
      ↔ ((n : ℕ) × (n ≤ length s) × (elim (take n s) [ [] ↦ nx | e ∷ s' ↦ stored e s' ] ≡ some j))
here_iff nx found stored [] j ih = (
  λ h. elim ((Has-append j (junctions nx) []).0 h) [
    | inl k ↦ (0, omega arith, (Has-junctions nx j).0 k)
    | inr f ↦ absurd f
  ],
  λ (n, le, e). (Has-append j (junctions nx) []).1 (
      inl (
        (Has-junctions nx j).1
          (ap (λ t. elim t [ [] ↦ nx | d ∷ s' ↦ stored d s' ]) (sym (take-nil n)) ∙ e))),
)
here_iff nx found stored (d ∷ s) j ih =
    let both = Has-append j (junctions nx) (found d s) in
    (
      λ h. elim (both.0 h) [
        | inl k ↦ (0, omega arith, (Has-junctions nx j).0 k)
        | inr k ↦ (let (n, le, e) = (ih d s).0 k in (suc n, omega arith, e))
      ],
      λ (n, le, e). below n le e,
    )
  where
    below :
        (n : ℕ)
        → n ≤ length (d ∷ s)
        → (elim (take n (d ∷ s)) [ [] ↦ nx | e ∷ s' ↦ stored e s' ] ≡ some j)
        → Has j (junctions nx ++ found d s)
    below zero le e = (Has-append j (junctions nx) (found d s)).1 (inl ((Has-junctions nx j).1 e))
    below (suc n) le e =
        (Has-append j (junctions nx) (found d s)).1 (inr ((ih d s).1 (n, omega (arith, le), e)))

-- `ssn_match` returns the junctions of exactly those strings of the tree that its string begins with.
pub match_from-PrefixStored :
    (t : Ssn) (c : ℕ) (s : Bytes) (j : ℕ) → Has j (match_from t c s) ↔ PrefixStored t c s j
unfolding match_from lookup
match_from-PrefixStored null c s j = (λ h. absurd h, λ (n, le, e). cc)
match_from-PrefixStored (node ch refc l r d nx) c s j = elim (Bool-cases (c == ch)) [
  | inl eq ↦
      rw eq (here_iff nx (match_from d) (lookup d) s j (λ e s'. match_from-PrefixStored d e s' j))
  | inr ne ↦ elim (Bool-cases (ltb c ch)) [
    | inl lt ↦ rw (ne, lt) (match_from-PrefixStored l c s j)
    | inr gt ↦ rw (ne, gt) (match_from-PrefixStored r c s j)
  ]
]
