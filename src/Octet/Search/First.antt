-- ===== src/Octet/Search/First.antt =====
-- lib/oct.c: `octchr`, `octpbrk` and `octstr` find the first place that fits.
use mathlib.Core.Bool.{false≢true}
use spocp.Prelude.{
  ==_iff, ℕ, zero, suc, ◌+◌, ◌<◌, Bytes, [], ◌∷◌, Option, none, some, Bool, true, false, ◌==◌,
  if◌then◌else◌, length, drop, ◌≡◌, refl, ◌⊎◌, inl, inr, ◌↔◌, arith, sym, ◌∙◌, Bool-cases,
}
use spocp.Octet.Search.Index.{shift, later, shift-later, shift-zero}
use spocp.Octet.Search.{octchr_loop, octchr, one_of, octpbrk_loop, octpbrk}

-- The first place of a text whose rest passes a test, or none if no rest does. The test sees the
-- rest from that place on.
abbrev pub IsFirst : (Bytes → Type 0) → Bytes → Option ℕ → Type 0
IsFirst P o none = (j : ℕ) → j < length o → ¬ (P (drop j o))
IsFirst P o (some i) = (i < length o) × P (drop i o) × ((j : ℕ) → j < i → ¬ (P (drop j o)))

-- The rest begins with the byte `c`.
abbrev pub StartsWith : ℕ → Bytes → Type 0
StartsWith c [] = ⊥
StartsWith c (d ∷ o) = d ≡ c

-- The rest begins with a byte of `acc`.
abbrev pub StartsIn : Bytes → Bytes → Type 0
StartsIn [] o = ⊥
StartsIn (a ∷ acc) o = StartsWith a o ⊎ StartsIn acc o

module _ (P : Bytes → Type 0) where
  not_before :
      (c : ℕ) (o : Bytes) (bound : ℕ → Type 0)
      → ¬ (P (c ∷ o))
      → ((j : ℕ) → bound j → ¬ (P (drop j o)))
      → (j : ℕ) → ((k : ℕ) → j ≡ suc k → bound k)
      → ¬ (P (drop j (c ∷ o)))
  not_before c o bound here h zero b = here
  not_before c o bound here h (suc j) b = h j (b j refl)

  IsFirst-later :
      (c : ℕ) (o : Bytes) (r : Option ℕ)
      → ¬ (P (c ∷ o))
      → IsFirst P o r
      → IsFirst P (c ∷ o) (later r)
  IsFirst-later c o none here h =
      λ j lt. not_before c o (λ k. k < length o) here h j (λ k e. omega arith)
  IsFirst-later c o (some i) here h =
      (omega arith, h.1, λ j lt. not_before c o (λ k. k < i) here h.2 j (λ k e. omega arith))

  IsFirst-here : (c : ℕ) (o : Bytes) → P (c ∷ o) → IsFirst P (c ∷ o) (some 0)
  IsFirst-here c o h = (omega arith, h, λ j lt. absurd (omega arith))

  -- A search that tests each place in turn and counts the index up.
  module _ (loop : ℕ → Bytes → Option ℕ) (test : Bytes → Bool) (ends : (i : ℕ) → loop i [] ≡ none)
      (steps : (i c : ℕ) (o : Bytes)
        → loop i (c ∷ o) ≡ (if test (c ∷ o) then some i else loop (i + 1) o))
      (exact : (c : ℕ) (o : Bytes) → (test (c ∷ o) ≡ true) ↔ P (c ∷ o)) where
    pub loop-IsFirst : (o : Bytes) (i : ℕ) → (r : Option ℕ) × (loop i o ≡ shift i r) × IsFirst P o r
    loop-IsFirst [] i = (none, ends i, λ j lt. absurd (omega arith))
    loop-IsFirst (c ∷ o) i = elim (Bool-cases (test (c ∷ o))) [
      | inl fits ↦ (some 0, rw (steps, fits) (ground arith), IsFirst-here c o ((exact c o).0 fits))
      | inr other ↦
          let (r, e, h) = loop-IsFirst o (i + 1) in
          (
            later r,
            steps i c o ∙ rw other (e ∙ shift-later i r),
            IsFirst-later c o r (λ p. false≢true (sym other ∙ (exact c o).1 p)) h,
          )
    ]

    pub from_start : (o : Bytes) → IsFirst P o (loop 0 o)
    from_start o = let (r, e, h) = loop-IsFirst o 0 in rw (e, shift-zero r) h

StartsWith-iff : (ch c : ℕ) (o : Bytes) → (c == ch ≡ true) ↔ StartsWith ch (c ∷ o)
StartsWith-iff ch c o = ==_iff c ch

head_test : (ℕ → Bool) → Bytes → Bool
head_test t [] = false
head_test t (c ∷ o) = t c

-- `octchr` returns the first index at which the byte stands, and -1 if it stands nowhere.
pub octchr-IsFirst : (o : Bytes) (ch : ℕ) → IsFirst (StartsWith ch) o (octchr o ch)
unfolding octchr head_test
octchr-IsFirst o ch =
    from_start (StartsWith ch) (octchr_loop ch) (head_test (λ c. c == ch)) (λ i. refl)
      (λ i c o'. refl) (StartsWith-iff ch) o

one_of_iff : (acc : Bytes) (c : ℕ) (o : Bytes) → (one_of acc c ≡ true) ↔ StartsIn acc (c ∷ o)
unfolding one_of
one_of_iff [] c o = (λ h. ground arith, λ h. absurd h)
one_of_iff (a ∷ acc) c o =
    let ih = one_of_iff acc c o in (λ h. ground (arith, ih.0), λ h. ground (arith, ih.1))

-- `octpbrk` returns the first index at which a byte of `acc` stands, and -1 if there is none.
pub octpbrk-IsFirst : (o acc : Bytes) → IsFirst (StartsIn acc) o (octpbrk o acc)
unfolding octpbrk head_test
octpbrk-IsFirst o acc =
    from_start (StartsIn acc) (octpbrk_loop acc) (head_test (one_of acc)) (λ i. refl)
      (λ i c o'. refl) (one_of_iff acc) o
