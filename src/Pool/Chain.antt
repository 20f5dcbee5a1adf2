-- ===== src/Pool/Chain.antt =====
-- server/pool.c: chains of items that are linked both ways.
use spocp.Pool.{Heap, with_next, with_prev}
use spocp.Prelude.{
  ℕ, List, [], ◌∷◌, ◌++◌, false, ◌==◌, ==_iff, ==_refl, All, ◌≡◌, ◌≢◌, refl, sym, ap, ◌∙◌, inl, inr,
  Bool-cases,
}

-- The first and the last of some items, before another one and behind another one.
abbrev pub first : List ℕ → ℕ → ℕ
first [] n = n
first (x ∷ l) n = x

abbrev pub last : ℕ → List ℕ → ℕ
last p [] = p
last p (x ∷ l) = last x l

-- The items are linked one to the next, the first back to `p`, and the last on to `n`.
unfoldable pub Linked : Heap → ℕ → List ℕ → ℕ → Type 0
Linked h p [] n = Unit
Linked h p (x ∷ l) n = ((h x).prev ≡ p) × ((h x).next ≡ first l n) × Linked h x l n

-- None of the items is this one.
abbrev pub Apart : ℕ → List ℕ → Type 0
Apart a l = All (λ x. x ≢ a) l

first-append : (l m : List ℕ) (n : ℕ) → first (l ++ m) n ≡ first l (first m n)
first-append [] m n = refl
first-append (x ∷ l) m n = refl

pub Linked-append :
    (h : Heap) (p : ℕ) (l m : List ℕ) (n : ℕ)
    → Linked h p l (first m n)
    → Linked h (last p l) m n
    → Linked h p (l ++ m) n
unfolding Linked
Linked-append h p [] m n a b = b
Linked-append h p (x ∷ l) m n a b =
    (a.0, a.1 ∙ sym (first-append l m n), Linked-append h x l m n a.2 b)

pub Linked-split :
    (h : Heap) (p : ℕ) (l m : List ℕ) (n : ℕ)
    → Linked h p (l ++ m) n
    → Linked h p l (first m n) × Linked h (last p l) m n
unfolding Linked
Linked-split h p [] m n a = (tt, a)
Linked-split h p (x ∷ l) m n a =
    let (b, c) = Linked-split h x l m n a.2 in ((a.0, a.1 ∙ first-append l m n, b), c)

-- Two heaps that agree on the items.
pub Linked-same :
    (h h' : Heap) (p : ℕ) (l : List ℕ) (n : ℕ)
    → All (λ x. h' x ≡ h x) l
    → Linked h p l n
    → Linked h' p l n
unfolding Linked
Linked-same h h' p [] n same a = tt
Linked-same h h' p (x ∷ l) n same a = (
  ap (λ i. i.prev) same.0 ∙ a.0,
  ap (λ i. i.next) same.0 ∙ a.1,
  Linked-same h h' x l n same.1 a.2,
)

ne-false : (a b : ℕ) → a ≢ b → a == b ≡ false
ne-false a b h = elim (Bool-cases (a == b)) [ inl e ↦ absurd (h ((==_iff a b).0 e)) | inr n ↦ n ]

module _ (h : Heap) (a v b : ℕ) where
  pub with_next-other : b ≢ a → with_next h a v b ≡ h b
  unfolding with_next
  with_next-other ne = rw (ne-false b a ne) refl

  pub with_prev-other : b ≢ a → with_prev h a v b ≡ h b
  unfolding with_prev
  with_prev-other ne = rw (ne-false b a ne) refl

module _ (h : Heap) (a v : ℕ) where
  pub with_next_self : with_next h a v a ≡ record { prev = (h a).prev; next = v }
  unfolding with_next
  with_next_self = rw (==_refl a) refl

  pub with_prev_self : with_prev h a v a ≡ record { prev = v; next = (h a).next }
  unfolding with_prev
  with_prev_self = rw (==_refl a) refl

  pub with_next-Apart : (l : List ℕ) → Apart a l → All (λ x. with_next h a v x ≡ h x) l
  with_next-Apart [] ap' = tt
  with_next-Apart (x ∷ l) ap' = (with_next-other h a v x ap'.0, with_next-Apart l ap'.1)

  pub with_prev-Apart : (l : List ℕ) → Apart a l → All (λ x. with_prev h a v x ≡ h x) l
  with_prev-Apart [] ap' = tt
  with_prev-Apart (x ∷ l) ap' = (with_prev-other h a v x ap'.0, with_prev-Apart l ap'.1)
