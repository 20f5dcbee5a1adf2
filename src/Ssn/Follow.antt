-- ===== src/Ssn/Follow.antt =====
-- lib/ssn.c: the junctions that `ssn_lte_match` gathers.
use spocp.Prelude.{
  ℕ, Bytes, List, [], ◌∷◌, ◌++◌, Option, some, ◌==◌, ltb, if◌then◌else◌, Bool-cases, ◌≡◌, sym, ◌∙◌,
  inl, inr, ◌⊎◌,
}
use spocp.Ssn.Lookup.{lookup, Has-junctions}
use spocp.Ssn.Steps.{lookup-left, lookup-right, lookup-end, lookup-down}
use spocp.Ssn.{
  Ssn, null, node, junctions, get_rec_all_ssn_followers, lte_from, ssn_lte_match, forward, is_null,
}
use spocp.Varr.Members.{Has, Has-append}

module _ (v : ℕ) (a b : List ℕ) where
  Has-first : Has v a → Has v (a ++ b)
  Has-first h = (Has-append v a b).1 (inl h)

  Has-second : Has v b → Has v (a ++ b)
  Has-second h = (Has-append v a b).1 (inr h)

-- The four parts of what is gathered at a node.
module _ (j ch refc : ℕ) (l r d : Ssn) (nx : Option ℕ) where
  here : nx ≡ some j → Has j (get_rec_all_ssn_followers (node ch refc l r d nx))
  unfolding get_rec_all_ssn_followers
  here e =
      Has-first j (junctions nx)
        (get_rec_all_ssn_followers d
          ++ (get_rec_all_ssn_followers l ++ get_rec_all_ssn_followers r))
        ((Has-junctions nx j).1 e)

  below :
      Has j (get_rec_all_ssn_followers d)
      → Has j (get_rec_all_ssn_followers (node ch refc l r d nx))
  unfolding get_rec_all_ssn_followers
  below h =
      Has-second j (junctions nx)
        (get_rec_all_ssn_followers d
          ++ (get_rec_all_ssn_followers l ++ get_rec_all_ssn_followers r))
        (Has-first j (get_rec_all_ssn_followers d)
          (get_rec_all_ssn_followers l ++ get_rec_all_ssn_followers r) h)

  at_left :
      Has j (get_rec_all_ssn_followers l)
      → Has j (get_rec_all_ssn_followers (node ch refc l r d nx))
  unfolding get_rec_all_ssn_followers
  at_left h =
      Has-second j (junctions nx)
        (get_rec_all_ssn_followers d
          ++ (get_rec_all_ssn_followers l ++ get_rec_all_ssn_followers r))
        (Has-second j (get_rec_all_ssn_followers d)
          (get_rec_all_ssn_followers l ++ get_rec_all_ssn_followers r)
          (Has-first j (get_rec_all_ssn_followers l) (get_rec_all_ssn_followers r) h))

  at_right :
      Has j (get_rec_all_ssn_followers r)
      → Has j (get_rec_all_ssn_followers (node ch refc l r d nx))
  unfolding get_rec_all_ssn_followers
  at_right h =
      Has-second j (junctions nx)
        (get_rec_all_ssn_followers d
          ++ (get_rec_all_ssn_followers l ++ get_rec_all_ssn_followers r))
        (Has-second j (get_rec_all_ssn_followers d)
          (get_rec_all_ssn_followers l ++ get_rec_all_ssn_followers r)
          (Has-second j (get_rec_all_ssn_followers l) (get_rec_all_ssn_followers r) h))

-- Every stored string is a follower.
lookup-followers :
    (t : Ssn) (c : ℕ) (s : Bytes) (j : ℕ)
    → lookup t c s ≡ some j
    → Has j (get_rec_all_ssn_followers t)
lookup-followers null c s j e = absurd (unfold lookup in cc)
lookup-followers (node ch refc l r d nx) c [] j e = elim (Bool-cases (c == ch)) [
  | inl eq ↦ here j ch refc l r d nx (sym (lookup-end ch refc l r d nx c eq) ∙ e)
  | inr ne ↦ elim (Bool-cases (ltb c ch)) [
    | inl lt ↦
        at_left j ch refc l r d nx
          (lookup-followers l c [] j (sym (lookup-left ch refc l r d nx c [] ne lt) ∙ e))
    | inr gt ↦
        at_right j ch refc l r d nx
          (lookup-followers r c [] j (sym (lookup-right ch refc l r d nx c [] ne gt) ∙ e))
  ]
]
lookup-followers (node ch refc l r d nx) c (b ∷ s) j e = elim (Bool-cases (c == ch)) [
  | inl eq ↦
      below j ch refc l r d nx
        (lookup-followers d b s j (sym (lookup-down ch refc l r d nx c b s eq) ∙ e))
  | inr ne ↦ elim (Bool-cases (ltb c ch)) [
    | inl lt ↦
        at_left j ch refc l r d nx
          (lookup-followers l c (b ∷ s) j (sym (lookup-left ch refc l r d nx c (b ∷ s) ne lt) ∙ e))
    | inr gt ↦
        at_right j ch refc l r d nx
          (lookup-followers r c (b ∷ s) j (sym (lookup-right ch refc l r d nx c (b ∷ s) ne gt) ∙ e))
  ]
]

-- At the last byte of the string, where a longer one goes on below.
at_end :
    (ch refc : ℕ) (l r d : Ssn) (nx : Option ℕ) (b : ℕ) (u : Bytes) (j : ℕ)
    → lookup d b u ≡ some j
    → Has j (if is_null d then [] else get_rec_all_ssn_followers (node ch refc l r d nx))
unfolding is_null
at_end ch refc l r null nx b u j e = absurd (unfold lookup in cc)
at_end ch refc l r (node ch' refc' l' r' d' nx') nx b u j e =
    below j ch refc l r (node ch' refc' l' r' d' nx') nx
      (lookup-followers (node ch' refc' l' r' d' nx') b u j e)

lte_from-longer :
    (t : Ssn) (c : ℕ) (s : Bytes) (b : ℕ) (u : Bytes) (j : ℕ)
    → lookup t c (s ++ b ∷ u) ≡ some j
    → Has j (lte_from t c s)
unfolding lte_from
lte_from-longer null c s b u j e = absurd (unfold lookup in cc)
lte_from-longer (node ch refc l r d nx) c [] b u j e = elim (Bool-cases (c == ch)) [
  | inl eq ↦ rw eq (at_end ch refc l r d nx b u j (sym (lookup-down ch refc l r d nx c b u eq) ∙ e))
  | inr ne ↦ elim (Bool-cases (ltb c ch)) [
    | inl lt ↦
        rw (ne, lt)
          (lte_from-longer l c [] b u j (sym (lookup-left ch refc l r d nx c (b ∷ u) ne lt) ∙ e))
    | inr gt ↦
        rw (ne, gt)
          (lte_from-longer r c [] b u j (sym (lookup-right ch refc l r d nx c (b ∷ u) ne gt) ∙ e))
  ]
]
lte_from-longer (node ch refc l r d nx) c (a ∷ s) b u j e = elim (Bool-cases (c == ch)) [
  | inl eq ↦
      rw eq
        (lte_from-longer d a s b u j (sym (lookup-down ch refc l r d nx c a (s ++ b ∷ u) eq) ∙ e))
  | inr ne ↦ elim (Bool-cases (ltb c ch)) [
    | inl lt ↦
        rw (ne, lt)
          (lte_from-longer l c (a ∷ s) b u j
            (sym (lookup-left ch refc l r d nx c (a ∷ (s ++ b ∷ u)) ne lt) ∙ e))
    | inr gt ↦
        rw (ne, gt)
          (lte_from-longer r c (a ∷ s) b u j
            (sym (lookup-right ch refc l r d nx c (a ∷ (s ++ b ∷ u)) ne gt) ∙ e))
  ]
]

-- `ssn_lte_match` of a string that is not empty finds every stored string that is longer and begins
-- with it, and keeps what was found before.
pub ssn_lte_match-longer :
    (t : Ssn) (c : ℕ) (s : Bytes) (b : ℕ) (u : Bytes) (res : List ℕ) (j : ℕ)
    → (lookup t c (s ++ b ∷ u) ≡ some j) ⊎ Has j res
    → Has j (ssn_lte_match t (c ∷ s) forward res)
unfolding ssn_lte_match
ssn_lte_match-longer t c s b u res j (inl e) =
    Has-second j res (lte_from t c s) (lte_from-longer t c s b u j e)
ssn_lte_match-longer t c s b u res j (inr h) = Has-first j res (lte_from t c s) h
