-- ===== src/Ssn/Inner.antt =====
-- lib/ssn.c: which junction `ssn_insert` returns, and what becomes of a string that is a proper
-- beginning of a stored one.
use spocp.Prelude.{
  ℕ, ==_refl, ap, some, ◌++◌, Bytes, [], ◌∷◌, Option, true, false, ◌==◌, ltb, Bool-cases, ◌≡◌, refl,
  sym, ◌∙◌, inl, inr,
}
use spocp.Ssn.Lookup.{lookup}
use spocp.Ssn.Steps.{
  is_inner, lookup-end, lookup-down, lookup-left, lookup-right, is_inner-end, is_inner-down,
  is_inner-left, is_inner-right, insert_forward-end, insert_forward-down, insert_forward-left,
  insert_forward-right,
}
use spocp.Ssn.{Ssn, null, node, or_new, end_at, with_left, with_right, with_down, insert_forward}

-- A statement on the result of an insertion and on what was stored, by the three ways through a node.
module _ (P : Ssn → ℕ → Bytes → Type 0) (ch refc : ℕ) (l r d : Ssn) (nx : Option ℕ) (c : ℕ) where
  by_way :
      (s : Bytes)
      → ((c == ch) ≡ true → P (node ch refc l r d nx) c s)
      → ((c == ch) ≡ false → ltb c ch ≡ true → P (node ch refc l r d nx) c s)
      → ((c == ch) ≡ false → ltb c ch ≡ false → P (node ch refc l r d nx) c s)
      → P (node ch refc l r d nx) c s
  by_way s here left right = elim (Bool-cases (c == ch)) [
    | inl eq ↦ here eq
    | inr ne ↦ elim (Bool-cases (ltb c ch)) [ inl lt ↦ left ne lt | inr gt ↦ right ne gt ]
  ]

-- The junction is that of the string if it was stored, and the new one if it was not.
abbrev Returns : ℕ → Ssn → ℕ → Bytes → Type 0
Returns j t c s = is_inner t c s ≡ false → (insert_forward t c s j).0 ≡ or_new (lookup t c s) j

Returns-end :
    (j ch refc : ℕ) (l r d : Ssn) (nx : Option ℕ) (c : ℕ)
    → (c == ch) ≡ true
    → Returns j (node ch refc l r d nx) c []
unfolding end_at
Returns-end j ch refc l r null nx c eq h =
    rw (insert_forward-end ch refc l r null nx c j eq, lookup-end ch refc l r null nx c eq) refl
Returns-end j ch refc l r (node ch' refc' l' r' d' nx') nx c eq h =
    absurd (let k = sym (is_inner-end ch refc l r (node ch' refc' l' r' d' nx') nx c eq) ∙ h in cc)

-- `ssn_insert` returns the junction of a string that is stored, and a new one otherwise, if the string
-- is no proper beginning of one that was stored before.
pub insert_forward-Returns : (j : ℕ) (t : Ssn) (c : ℕ) (s : Bytes) → Returns j t c s
unfolding with_left with_right with_down
insert_forward-Returns j null c s h = unfold insert_forward lookup or_new in refl
insert_forward-Returns j (node ch refc l r d nx) c [] h =
    by_way (Returns j) ch refc l r d nx c [] (Returns-end j ch refc l r d nx c)
      (λ ne lt h.
        rw
          (
            insert_forward-left ch refc l r d nx c [] j ne lt,
            lookup-left ch refc l r d nx c [] ne lt,
          )
          (insert_forward-Returns j l c [] (sym (is_inner-left ch refc l r d nx c [] ne lt) ∙ h)))
      (λ ne gt h.
        rw
          (
            insert_forward-right ch refc l r d nx c [] j ne gt,
            lookup-right ch refc l r d nx c [] ne gt,
          )
          (insert_forward-Returns j r c [] (sym (is_inner-right ch refc l r d nx c [] ne gt) ∙ h)))
      h
insert_forward-Returns j (node ch refc l r d nx) c (e ∷ s) h =
    by_way (Returns j) ch refc l r d nx c (e ∷ s)
      (λ eq h.
        rw (insert_forward-down ch refc l r d nx c e s j eq, lookup-down ch refc l r d nx c e s eq)
          (insert_forward-Returns j d e s (sym (is_inner-down ch refc l r d nx c e s eq) ∙ h)))
      (λ ne lt h.
        rw
          (
            insert_forward-left ch refc l r d nx c (e ∷ s) j ne lt,
            lookup-left ch refc l r d nx c (e ∷ s) ne lt,
          )
          (insert_forward-Returns j l c (e ∷ s)
            (sym (is_inner-left ch refc l r d nx c (e ∷ s) ne lt) ∙ h)))
      (λ ne gt h.
        rw
          (
            insert_forward-right ch refc l r d nx c (e ∷ s) j ne gt,
            lookup-right ch refc l r d nx c (e ∷ s) ne gt,
          )
          (insert_forward-Returns j r c (e ∷ s)
            (sym (is_inner-right ch refc l r d nx c (e ∷ s) ne gt) ∙ h)))
      h

-- What was stored for the string is stored for it now, and the junction returned is stored for the string
-- with one byte more: the one that was stored for that, or else the new one.
abbrev pub Misses : ℕ → Ssn → ℕ → Bytes → Type 0
Misses j t c s =
    (lookup (insert_forward t c s j).1 c s ≡ lookup t c s)
    × ((e : ℕ) × (lookup (insert_forward t c s j).1 c (s ++ (e ∷ []))
          ≡ some (insert_forward t c s j).0)
        × ((insert_forward t c s j).0 ≡ or_new (lookup t c (s ++ (e ∷ []))) j))

Misses-end :
    (j ch refc : ℕ) (l r d : Ssn) (nx : Option ℕ) (c : ℕ)
    → (c == ch) ≡ true
    → is_inner (node ch refc l r d nx) c [] ≡ true
    → Misses j (node ch refc l r d nx) c []
unfolding end_at
Misses-end j ch refc l r null nx c eq h =
    absurd (let k = sym (is_inner-end ch refc l r null nx c eq) ∙ h in cc)
Misses-end j ch refc l r (node ch' refc' l' r' d' nx') nx c eq h =
    let d : Ssn = node ch' refc' l' r' d' nx' in
    let same : (ch' == ch') ≡ true = ==_refl ch' in
    let before : lookup (node ch refc l r d nx) c (ch' ∷ []) ≡ nx' =
      lookup-down ch refc l r d nx c ch' [] eq ∙ lookup-end ch' refc' l' r' d' nx' ch' same in
    rw (insert_forward-end ch refc l r d nx c j eq) (
      lookup-end ch _ l r _ nx c eq ∙ sym (lookup-end ch refc l r d nx c eq),
      (
        ch',
        lookup-down ch _ l r _ nx c ch' [] eq ∙ lookup-end ch' refc' l' r' d' _ ch' same,
        ap (λ (o : Option ℕ). or_new o j) (sym before),
      ),
    )

module _ (j ch refc : ℕ) (l r d : Ssn) (nx : Option ℕ) (c : ℕ) where
  Misses-left :
      (s : Bytes)
      → (c == ch) ≡ false
      → ltb c ch ≡ true
      → Misses j l c s
      → Misses j (node ch refc l r d nx) c s
  unfolding with_left
  Misses-left s ne lt (same, (e, stored, returned)) =
      rw (insert_forward-left ch refc l r d nx c s j ne lt) (
        lookup-left ch refc _ r d nx c s ne lt
            ∙ same
            ∙ sym (lookup-left ch refc l r d nx c s ne lt),
        (
          e,
          lookup-left ch refc _ r d nx c (s ++ (e ∷ [])) ne lt ∙ stored,
          returned
              ∙ ap (λ (o : Option ℕ). or_new o j)
                  (sym (lookup-left ch refc l r d nx c (s ++ (e ∷ [])) ne lt)),
        ),
      )

  Misses-right :
      (s : Bytes)
      → (c == ch) ≡ false
      → ltb c ch ≡ false
      → Misses j r c s
      → Misses j (node ch refc l r d nx) c s
  unfolding with_right
  Misses-right s ne gt (same, (e, stored, returned)) =
      rw (insert_forward-right ch refc l r d nx c s j ne gt) (
        lookup-right ch refc l _ d nx c s ne gt
            ∙ same
            ∙ sym (lookup-right ch refc l r d nx c s ne gt),
        (
          e,
          lookup-right ch refc l _ d nx c (s ++ (e ∷ [])) ne gt ∙ stored,
          returned
              ∙ ap (λ (o : Option ℕ). or_new o j)
                  (sym (lookup-right ch refc l r d nx c (s ++ (e ∷ [])) ne gt)),
        ),
      )

  Misses-down :
      (b : ℕ) (s : Bytes)
      → (c == ch) ≡ true
      → Misses j d b s
      → Misses j (node ch refc l r d nx) c (b ∷ s)
  unfolding with_down
  Misses-down b s eq (same, (e, stored, returned)) =
      rw (insert_forward-down ch refc l r d nx c b s j eq) (
        lookup-down ch _ l r _ nx c b s eq ∙ same ∙ sym (lookup-down ch refc l r d nx c b s eq),
        (
          e,
          lookup-down ch _ l r _ nx c b (s ++ (e ∷ [])) eq ∙ stored,
          returned
              ∙ ap (λ (o : Option ℕ). or_new o j)
                  (sym (lookup-down ch refc l r d nx c b (s ++ (e ∷ [])) eq)),
        ),
      )

-- A string that is a proper beginning of one that was stored before is not stored: `ssn_insert` leaves it at
-- what was stored for it before. The junction that it returns, and hands to the rule of the string, is that of
-- the string with some byte more: the one that this had, or else the new one, which it has afterwards.
pub lookup-insert_forward_inner :
    (j : ℕ) (t : Ssn) (c : ℕ) (s : Bytes) → is_inner t c s ≡ true → Misses j t c s
lookup-insert_forward_inner j null c s h = absurd (unfold is_inner in cc)
lookup-insert_forward_inner j (node ch refc l r d nx) c [] h =
    by_way (λ t c s. is_inner t c s ≡ true → Misses j t c s) ch refc l r d nx c []
      (Misses-end j ch refc l r d nx c)
      (λ ne lt h. Misses-left j ch refc l r d nx c [] ne lt (
        lookup-insert_forward_inner j l c [] (sym (is_inner-left ch refc l r d nx c [] ne lt) ∙ h)))
      (λ ne gt h. Misses-right j ch refc l r d nx c [] ne gt (
        lookup-insert_forward_inner j r c []
          (sym (is_inner-right ch refc l r d nx c [] ne gt) ∙ h)))
      h
lookup-insert_forward_inner j (node ch refc l r d nx) c (e ∷ s) h =
    by_way (λ t c s. is_inner t c s ≡ true → Misses j t c s) ch refc l r d nx c (e ∷ s)
      (λ eq h.
        Misses-down j ch refc l r d nx c e s eq
          (lookup-insert_forward_inner j d e s (sym (is_inner-down ch refc l r d nx c e s eq) ∙ h)))
      (λ ne lt h. Misses-left j ch refc l r d nx c (e ∷ s) ne lt (
        lookup-insert_forward_inner j l c (e ∷ s)
          (sym (is_inner-left ch refc l r d nx c (e ∷ s) ne lt) ∙ h)))
      (λ ne gt h. Misses-right j ch refc l r d nx c (e ∷ s) ne gt (
        lookup-insert_forward_inner j r c (e ∷ s)
          (sym (is_inner-right ch refc l r d nx c (e ∷ s) ne gt) ∙ h)))
      h
