-- ===== src/Ssn/Refine.antt =====
-- lib/ssn.c: the tree as a map from strings to junctions.
use spocp.Prelude.{
  ℕ, Bytes, [], ◌∷◌, Option, none, some, true, false, ◌==◌, ==_iff, ==_refl, same_bytes, length,
  take, ◌≤◌, if◌then◌else◌, Bool-cases, ◌≡◌, ◌≢◌, refl, sym, ap, ap₂, ◌∙◌, inl, inr, ◌↔◌, arith,
}
use spocp.Ssn.Inner.{insert_forward-Returns}
use spocp.Ssn.Insert.{lookup-insert_forward, lookup-insert_forward_other}
use spocp.Ssn.Lookup.{lookup, match_from-PrefixStored}
use spocp.Ssn.Steps.{is_inner}
use spocp.Ssn.{Ssn, or_new, insert_forward, ssn_insert, ssn_match, forward}
use spocp.Prelude.{ok}
use spocp.Varr.Members.{Has}

-- The tree holds the strings that the map has a junction for, and no others.
abbrev pub Represents : Ssn → (Bytes → Option ℕ) → Type 0
Represents t f = (c : ℕ) (s : Bytes) → lookup t c s ≡ f (c ∷ s)

abbrev pub with_entry : (Bytes → Option ℕ) → Bytes → ℕ → Bytes → Option ℕ
with_entry f k i k' = if same_bytes k k' then some i else f k'

pub same_bytes_refl : (k : Bytes) → same_bytes k k ≡ true
same_bytes_refl [] = refl
same_bytes_refl (c ∷ k) = rw (==_refl c) (same_bytes_refl k)

pub same_bytes-eq : (k k' : Bytes) → same_bytes k k' ≡ true → k ≡ k'
same_bytes-eq [] [] h = refl
same_bytes-eq [] (c ∷ k') h = cc
same_bytes-eq (c ∷ k) [] h = cc
same_bytes-eq (c ∷ k) (d ∷ k') h = elim (Bool-cases (c == d)) [
  | inl e ↦ ap₂ ◌∷◌ ((==_iff c d).0 e) (same_bytes-eq k k' (ground (arith, e, h)))
  | inr n ↦ absurd (ground (arith, n, h))
]

differ : (k k' : Bytes) → same_bytes k k' ≡ false → k ≢ k'
differ k k' n e = let h = ap (same_bytes k) e in let r = same_bytes_refl k in cc

looked : Ssn → Bytes → Option ℕ
looked t [] = none
looked t (c ∷ s) = lookup t c s

-- Inserting forward a string that is no proper beginning of a stored one refines the map with one
-- entry more: the junction returned is the one that the map has for the string, or else the new one,
-- and the tree represents the map with it.
pub ssn_insert-Represents :
    (t : Ssn) (f : Bytes → Option ℕ) (c : ℕ) (s : Bytes) (j : ℕ)
    → Represents t f
    → is_inner t c s ≡ false
    → (t' : Ssn) × (ssn_insert t (c ∷ s) forward j ≡ ok (or_new (f (c ∷ s)) j, t'))
      × Represents t' (with_entry f (c ∷ s) (or_new (f (c ∷ s)) j))
unfolding ssn_insert looked
ssn_insert-Represents t f c s j rep outer =
    let i = insert_forward-Returns j t c s outer ∙ ap (λ o. or_new o j) (rep c s) in
    (
      (insert_forward t c s j).1,
      ap (λ n. ok (n, (insert_forward t c s j).1)) i,
      λ c' s'. elim (Bool-cases (same_bytes (c ∷ s) (c' ∷ s'))) [
        | inl e ↦ rw e (
            ap (looked (insert_forward t c s j).1) (sym (same_bytes-eq (c ∷ s) (c' ∷ s') e))
            ∙ lookup-insert_forward t c s j outer
            ∙ ap some i)
        | inr n ↦ rw n (
            lookup-insert_forward_other t c s j c' s' outer (λ e. differ (c ∷ s) (c' ∷ s') n e)
            ∙ rep c' s')
      ],
    )

-- `ssn_match` forward returns the junctions of exactly those strings in the map, of one byte at least,
-- that its string begins with.
pub ssn_match-Represents :
    (t : Ssn) (f : Bytes → Option ℕ) (c : ℕ) (s : Bytes) (j : ℕ)
    → Represents t f
    → Has j (ssn_match t (c ∷ s) forward) ↔ ((n : ℕ) × (n ≤ length s) × (f (c ∷ take n s) ≡ some j))
unfolding ssn_match
ssn_match-Represents t f c s j rep =
    let found = match_from-PrefixStored t c s j in
    (
      λ h. let (n, le, e) = found.0 h in (n, le, sym (rep c (take n s)) ∙ e),
      λ (n, le, e). found.1 (n, le, rep c (take n s) ∙ e),
    )
