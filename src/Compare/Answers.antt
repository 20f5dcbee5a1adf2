-- ===== src/Compare/Answers.antt =====
-- server/cmp.c: results that are there, and 0 exactly if a statement holds.
use spocp.Prelude.{
  ℕ, Bool, true, false, ◌==◌, Result, ok, ◌>>=◌, ◌≡◌, refl, sym, subst, ◌↔◌, ◌⊎◌, inl, inr, ==_iff,
  arith,
}

-- A result that is 0 exactly if the statement holds.
abbrev pub Answers : Result ℕ → Type 0 → Type 0
Answers r P = (v : ℕ) × (r ≡ ok v) × ((v ≡ 0) ↔ P)

or_at :
    (v : ℕ) (s : Result ℕ) (P Q : Type 0) (t : Bool)
    → (v == 0) ≡ t
    → (v ≡ 0) ↔ P
    → Answers s Q
    → Answers (elim t [ true ↦ ok 0 | false ↦ s ]) (P ⊎ Q)
or_at v s P Q true z h k = (0, refl, (λ _. inl (h.0 ((==_iff v 0).0 z)), λ _. refl))
or_at v s P Q false n h (w, f, k) = (
  w,
  f,
  (
    λ z. inr (k.0 z),
    λ x. elim x [ inl p ↦ absurd (let z = h.1 p in ground (arith, n, z)) | inr q ↦ k.1 q ],
  ),
)

and_at :
    (v : ℕ) (s : Result ℕ) (P Q : Type 0) (t : Bool)
    → (v == 0) ≡ t
    → (v ≡ 0) ↔ P
    → Answers s Q
    → Answers (elim t [ true ↦ s | false ↦ ok 1 ]) (P × Q)
and_at v s P Q true z h (w, f, k) = (w, f, (λ x. (h.0 ((==_iff v 0).0 z), k.0 x), λ x. k.1 x.1))
and_at v s P Q false n h k = (
  1,
  refl,
  (λ x. absurd (omega (arith, x)), λ x. absurd (let z = h.1 x.0 in ground (arith, n, z))),
)

pub Answers_or :
    (r s : Result ℕ) (P Q : Type 0)
    → Answers r P
    → Answers s Q
    → Answers (r >>= λ v. elim (v == 0) [ true ↦ ok 0 | false ↦ s ]) (P ⊎ Q)
Answers_or r s P Q (v, e, h) k =
    subst (λ r. Answers (r >>= λ v. elim (v == 0) [ true ↦ ok 0 | false ↦ s ]) (P ⊎ Q)) (sym e)
      (or_at v s P Q (v == 0) refl h k)

pub Answers_and :
    (r s : Result ℕ) (P Q : Type 0)
    → Answers r P
    → Answers s Q
    → Answers (r >>= λ v. elim (v == 0) [ true ↦ s | false ↦ ok 1 ]) (P × Q)
Answers_and r s P Q (v, e, h) k =
    subst (λ r. Answers (r >>= λ v. elim (v == 0) [ true ↦ s | false ↦ ok 1 ]) (P × Q)) (sym e)
      (and_at v s P Q (v == 0) refl h k)
