-- ===== src/Rulesets/Order.antt =====
-- server/ruleset.c: the order of the names of a level, and the sign of a comparison.
use spocp.Prelude.{
  ℕ, Bytes, true, [], ◌∷◌, is_negative, is_positive, ◌≡◌, ◌≢◌, refl, sym, ap, ◌⊎◌, inl, inr, arith,
}
use spocp.Octet.Compare.Order.{LexLt, LexLt-asymm, LexLt-irrefl, oct2strcmp-Says}
use spocp.Rulesets.{Level, null, level, Chain, end, item, Sign, below, same, above, sign_of, sign}

-- What the sign of a comparison with a name says.
abbrev pub Signs : Sign → Bytes → Bytes → Type 0
Signs below name s = LexLt s name
Signs same name s = s ≡ name
Signs above name s = LexLt name s

negative_sign : (c : ℕ) → is_negative c ≡ true → sign_of c ≡ below
unfolding sign_of
negative_sign c h = ground arith

positive_sign : (c : ℕ) → is_positive c ≡ true → sign_of c ≡ above
unfolding sign_of
positive_sign c h = ground arith

pub sign-Signs : (name s : Bytes) → s ≢ [] → Signs (sign name s) name s
unfolding sign
sign-Signs name s h = elim (oct2strcmp-Says name s h) [
  | inl p ↦ rw (ap sign_of p.0) (unfold sign_of in p.1)
  | inr (inl p) ↦ rw (negative_sign _ p.0) (p.1)
  | inr (inr p) ↦ rw (positive_sign _ p.0) (p.1)
]

pub LexLt-trans : (a b c : Bytes) → LexLt a b → LexLt b c → LexLt a c
LexLt-trans a b [] h k = k
LexLt-trans a [] (z ∷ c) h k = absurd h
LexLt-trans [] (y ∷ b) (z ∷ c) h k = tt
LexLt-trans (x ∷ a) (y ∷ b) (z ∷ c) h k = ground (arith, LexLt-trans a b c)

pub LexLt-ne-nil : (a b : Bytes) → LexLt a b → b ≢ []
LexLt-ne-nil a [] h e = h
LexLt-ne-nil a (y ∷ b) h e = cc

-- The three signs, told from the order.
pub sign-same : (name s : Bytes) → s ≢ [] → s ≡ name → sign name s ≡ same
sign-same name s h e =
    elim (sign name s) as (λ c. Signs c name s → c ≡ same) [
      | below ↦ λ lt. absurd (LexLt-irrefl s name e lt)
      | same ↦ λ _. refl
      | above ↦ λ lt. absurd (LexLt-irrefl name s (sym e) lt)
    ]
      (sign-Signs name s h)

pub sign-below : (name s : Bytes) → s ≢ [] → LexLt s name → sign name s ≡ below
sign-below name s h lt =
    elim (sign name s) as (λ c. Signs c name s → c ≡ below) [
      | below ↦ λ _. refl
      | same ↦ λ e. absurd (LexLt-irrefl s name e lt)
      | above ↦ λ gt. absurd (LexLt-asymm s name lt gt)
    ]
      (sign-Signs name s h)

pub sign-above : (name s : Bytes) → s ≢ [] → LexLt name s → sign name s ≡ above
sign-above name s h gt =
    elim (sign name s) as (λ c. Signs c name s → c ≡ above) [
      | below ↦ λ lt. absurd (LexLt-asymm s name lt gt)
      | same ↦ λ e. absurd (LexLt-irrefl name s (sym e) gt)
      | above ↦ λ _. refl
    ]
      (sign-Signs name s h)

-- The sign with its equation.
pub sign-cases :
    (name s : Bytes)
    → s ≢ []
    → (sign name s ≡ below) × LexLt s name
      ⊎ (sign name s ≡ same) × (s ≡ name)
      ⊎ (sign name s ≡ above) × LexLt name s
sign-cases name s h =
    elim (sign name s)
        as (λ c.
          Signs c name s
          → (c ≡ below) × LexLt s name ⊎ (c ≡ same) × (s ≡ name) ⊎ (c ≡ above) × LexLt name s) [
            | below ↦ λ p. inl (refl, p)
            | same ↦ λ p. inr (inl (refl, p))
            | above ↦ λ p. inr (inr (refl, p))
          ]
      (sign-Signs name s h)

-- Every level is in order: the names grow to the left of where it is entered, fall to the right, and
-- are not empty.
abbrev mutual
  pub IsLevel : Level → Type 0
  IsLevel null = Unit
  IsLevel (level l i d r) = (i.name ≢ []) × IsLevel d × Rises i.name l × Falls i.name r

  pub Rises : Bytes → Chain → Type 0
  Rises b end = Unit
  Rises b (item i d rest) = LexLt b i.name × IsLevel d × Rises i.name rest

  pub Falls : Bytes → Chain → Type 0
  Falls b end = Unit
  Falls b (item i d rest) = (i.name ≢ []) × LexLt i.name b × IsLevel d × Falls i.name rest
