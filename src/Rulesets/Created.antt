-- ===== src/Rulesets/Created.antt =====
-- server/ruleset.c: the rule sets that the loop of `ruleset_create` makes, as a set of paths.
use spocp.Prelude.{
  ℕ, suc, Bytes, List, [], ◌∷◌, Option, none, some, All, ◌≡◌, ◌≢◌, refl, sym, ◌∙◌, ◌⊎◌, inl, inr,
}
use spocp.Octet.Compare.Order.{LexLt-irrefl}
use spocp.Rulesets.{Info, ruleset_new, Level, null, Node, one_level, add_to_level, set_down}
use spocp.Rulesets.Order.{sign-cases, IsLevel}
use spocp.Rulesets.Changes.{add_to_level_self, add_to_level_other, add_to_level-IsLevel}
use spocp.Rulesets.Writes.{set_down_self, set_down_other, set_down-IsLevel, one_level-IsLevel}
use spocp.Rulesets.Find.{find_loop, create_loop}

abbrev pub IsPart : Bytes → Type 0
IsPart p = p ≢ []

-- A path is the beginning of another.
abbrev pub Begins : List Bytes → List Bytes → Type 0
Begins [] ps = Unit
Begins (q ∷ qs) [] = ⊥
Begins (q ∷ qs) (p ∷ ps) = (p ≡ q) × Begins qs ps

abbrev pub Found : Option Node → Type 0
Found none = ⊥
Found (some n) = Unit

-- A rule set that was found is still found.
abbrev pub Kept : Option Node → Option Node → Type 0
Kept none r = Unit
Kept (some n) none = ⊥
Kept (some n) (some n') = n'.0 ≡ n.0

-- The option with its equation.
pub option-cases : (r : Option Node) → (r ≡ none) ⊎ ((n : Node) × (r ≡ some n))
option-cases none = inl refl
option-cases (some n) = inr (n, refl)

same_or_not : (q p : Bytes) → p ≢ [] → (p ≡ q) ⊎ (p ≢ q)
same_or_not q p h = elim (sign-cases q p h) [
  | inl b ↦ inr (λ e. LexLt-irrefl p q e b.1)
  | inr (inl s) ↦ inl (s.1)
  | inr (inr b) ↦ inr (λ e. LexLt-irrefl q p (sym e) b.1)
]

module _ (p : Bytes) (ps : List Bytes) (d : Level) (a : ℕ) where
  create_old :
      (n : Node)
      → one_level p d ≡ some n
      → (create_loop (p ∷ ps) d a).0 ≡ set_down p (create_loop ps n.1 a).0 d
  unfolding create_loop
  create_old n e = rw (e, create_loop) refl

  create_new :
      one_level p d ≡ none
      → (create_loop (p ∷ ps) d a).0
        ≡ set_down p (create_loop ps null (suc a)).0 (add_to_level p a d)
  unfolding create_loop
  create_new e = rw (e, create_loop) refl

module _ (p : Bytes) (ps : List Bytes) (d : Level) (a : ℕ) (part : IsPart p) (h : IsLevel d) where
  -- The loop enters a rule set that is there.
  enter_old :
      (n : Node)
      → one_level p d ≡ some n
      → one_level p (create_loop (p ∷ ps) d a).0 ≡ some (n.0, (create_loop ps n.1 a).0)
  enter_old n e = rw (create_old p ps d a n e) (set_down_self p _ n d e)

  -- It makes one that is not.
  enter_new :
      one_level p d ≡ none
      → one_level p (create_loop (p ∷ ps) d a).0
        ≡ some (ruleset_new a p, (create_loop ps null (suc a)).0)
  enter_new e =
      rw (create_new p ps d a e) (set_down_self p _ _ _ (add_to_level_self p a part d h e))

  enter_other : (q : Bytes) → p ≢ q → one_level q (create_loop (p ∷ ps) d a).0 ≡ one_level q d
  enter_other q differ = elim (option-cases (one_level p d)) [
    | inl e ↦ rw (create_new p ps d a e) (
        set_down_other p _ q differ _ (add_to_level-IsLevel p a part d h)
        ∙ add_to_level_other p a part q differ d h)
    | inr (n, e) ↦ rw (create_old p ps d a n e) (set_down_other p _ q differ d h)
  ]

-- Every level stays in order.
pub create_loop-IsLevel :
    (ps : List Bytes) (d : Level) (a : ℕ)
    → All IsPart ps
    → IsLevel d
    → IsLevel (create_loop ps d a).0
create_loop-IsLevel [] d a parts h = unfold create_loop in h
create_loop-IsLevel (p ∷ ps) d a parts h = elim (option-cases (one_level p d)) [
  | inl e ↦ rw (create_new p ps d a e) (
      set_down-IsLevel p _ (create_loop-IsLevel ps null (suc a) parts.1 tt) _
        (add_to_level-IsLevel p a parts.0 d h))
  | inr (n, e) ↦ rw (create_old p ps d a n e) (
      set_down-IsLevel p _ (create_loop-IsLevel ps n.1 a parts.1 (one_level-IsLevel p d n h e)) d h)
]

-- What is found at a path before and after, where the path is one of those that are made or not.
abbrev pub Made : Type 0 → Option Node → Option Node → Type 0
Made B r r' = Kept r r' × (B → Found r') × (Found r' → Found r ⊎ B)

Made-refl : {B : Type 0} (r : Option Node) → (B → ⊥) → Made B r r
Made-refl none h = (tt, λ b. absurd (h b), λ f. absurd f)
Made-refl (some n) h = (refl, λ b. tt, λ f. inl f)

module _ (q : Bytes) (qs : List Bytes) (i : Info) (d : Level) where
  find_some : (n : Node) → one_level q d ≡ some n → find_loop (q ∷ qs) (i, d) ≡ find_loop qs n
  unfolding find_loop
  find_some n e = rw (e, find_loop) refl

  find_none : one_level q d ≡ none → find_loop (q ∷ qs) (i, d) ≡ none
  unfolding find_loop
  find_none e = rw (e, find_loop) refl

  find_same :
      (d' : Level)
      → one_level q d' ≡ one_level q d
      → find_loop (q ∷ qs) (i, d') ≡ find_loop (q ∷ qs) (i, d)
  unfolding find_loop
  find_same d' e = rw (e, find_loop) refl

-- Nothing is below a new rule set.
find_below_new : (qs : List Bytes) (i : Info) → Found (find_loop qs (i, null)) → qs ≡ []
unfolding find_loop one_level
find_below_new [] i f = refl
find_below_new (q ∷ qs) i f = absurd f

Begins-nil : (qs ps : List Bytes) → qs ≡ [] → Begins qs ps
Begins-nil qs ps e = rw e tt

module _ (p : Bytes) (ps qs : List Bytes) (i : Info) (d : Level) (a : ℕ) (part : IsPart p)
    (h : IsLevel d) where
  Made-old :
      (n : Node)
      → one_level p d ≡ some n
      → Made (Begins qs ps) (find_loop qs n) (find_loop qs (n.0, (create_loop ps n.1 a).0))
      → Made
          (Begins (p ∷ qs) (p ∷ ps))
          (find_loop (p ∷ qs) (i, d))
          (find_loop (p ∷ qs) (i, (create_loop (p ∷ ps) d a).0))
  Made-old n e m =
      rw (find_some p qs i d n e, find_some p qs i _ _ (enter_old p ps d a part h n e))
        (m.0, λ b. m.1 b.1, λ f. elim (m.2 f) [ inl old ↦ inl old | inr b ↦ inr (refl, b) ])

  Made-new :
      one_level p d ≡ none
      → Made
          (Begins qs ps)
          (find_loop qs (ruleset_new a p, null))
          (find_loop qs (ruleset_new a p, (create_loop ps null (suc a)).0))
      → Made
          (Begins (p ∷ qs) (p ∷ ps))
          (find_loop (p ∷ qs) (i, d))
          (find_loop (p ∷ qs) (i, (create_loop (p ∷ ps) d a).0))
  Made-new e m =
      rw (find_none p qs i d e, find_some p qs i _ _ (enter_new p ps d a part h e))
        (
          tt,
          λ b. m.1 b.1,
          λ f. elim (m.2 f) [
            | inl old ↦ inr (refl, Begins-nil qs ps (find_below_new qs _ old))
            | inr b ↦ inr (refl, b)
          ],
        )

-- The rule sets that are found after the loop of `ruleset_create` are those that were found before, with
-- their addresses and names, and those of all the beginnings of the path.
pub create_loop-Made :
    (ps qs : List Bytes) (i : Info) (d : Level) (a : ℕ)
    → All IsPart ps
    → IsLevel d
    → Made (Begins qs ps) (find_loop qs (i, d)) (find_loop qs (i, (create_loop ps d a).0))
create_loop-Made ps [] i d a parts h = unfold find_loop in (refl, λ _. tt, λ _. inl tt)
create_loop-Made [] (q ∷ qs) i d a parts h = unfold create_loop in Made-refl _ (λ b. b)
create_loop-Made (p ∷ ps) (q ∷ qs) i d a parts h = elim (same_or_not q p parts.0) [
  | inl same ↦ rw (← same) (elim (option-cases (one_level p d)) [
    | inl e ↦
        Made-new p ps qs i d a parts.0 h e
          (create_loop-Made ps qs (ruleset_new a p) null (suc a) parts.1 tt)
    | inr (n, e) ↦
        Made-old p ps qs i d a parts.0 h n e
          (create_loop-Made ps qs n.0 n.1 a parts.1 (one_level-IsLevel p d n h e))
  ])
  | inr differ ↦
      rw (find_same q qs i d _ (enter_other p ps d a parts.0 h q differ))
        (Made-refl _ (λ b. differ b.0))
]
