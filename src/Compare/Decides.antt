-- ===== src/Compare/Decides.antt =====
-- server/cmp.c: results that are 0 exactly if a statement holds, and the two ways in which `elementcmp`
-- goes on from one result to the next.
use spocp.Prelude.{
  ℕ, Bool, true, false, ◌==◌, ==_iff, Result, ok, err, fault, unfinished, ◌>>=◌, ◌≡◌, ◌≢◌, refl, ap,
  ◌↔◌, ◌⊎◌, inl, inr, arith,
}

-- A result is 0 exactly if the statement holds.
abbrev pub Decides : Result ℕ → Type 0 → Type 0
Decides (ok v) P = (v ≡ 0) ↔ P
Decides _ P = Unit

pub range_decides : (r : Result ℕ) → Decides r (r ≡ ok 0)
range_decides (ok v) = (λ z. ap ok z, λ e. cc)
range_decides (err c) = tt
range_decides fault = tt
range_decides unfinished = tt

Decides_map : (s : Result ℕ) (P Q : Type 0) → (P → Q) → (Q → P) → Decides s P → Decides s Q
Decides_map (ok v) P Q f g h = (λ z. f (h.0 z), λ q. h.1 (g q))
Decides_map (err e) P Q f g h = tt
Decides_map fault P Q f g h = tt
Decides_map unfinished P Q f g h = tt

not_zero : (v : ℕ) → (v == 0) ≡ false → v ≢ 0
not_zero v h e = ground (arith, h, e)

-- The next test is made if the last one was not 0.
or_at :
    (v : ℕ) (s : Result ℕ) (P Q : Type 0) (t : Bool)
    → (v == 0) ≡ t
    → (v ≡ 0) ↔ P
    → Decides s Q
    → Decides (elim t [ true ↦ ok 0 | false ↦ s ]) (P ⊎ Q)
or_at v s P Q true z hv hs = (λ _. inl (hv.0 ((==_iff v 0).0 z)), λ _. refl)
or_at v s P Q false n hv hs =
    Decides_map s Q (P ⊎ Q) inr (λ x. elim x [ inl p ↦ absurd (not_zero v n (hv.1 p)) | inr q ↦ q ])
      hs

-- The next test is made if the last one was 0.
and_at :
    (v : ℕ) (s : Result ℕ) (P Q : Type 0) (t : Bool)
    → (v == 0) ≡ t
    → (v ≡ 0) ↔ P
    → Decides s Q
    → Decides (elim t [ true ↦ s | false ↦ ok 1 ]) (P × Q)
and_at v s P Q true z hv hs =
    Decides_map s Q (P × Q) (λ q. (hv.0 ((==_iff v 0).0 z), q)) (λ x. x.1) hs
and_at v s P Q false n hv hs =
    (λ z. absurd (omega (arith, z)), λ x. absurd (not_zero v n (hv.1 x.0)))

pub Decides_or :
    (r s : Result ℕ) (P Q : Type 0)
    → Decides r P
    → Decides s Q
    → Decides (r >>= λ v. elim (v == 0) [ true ↦ ok 0 | false ↦ s ]) (P ⊎ Q)
Decides_or (ok v) s P Q hr hs = or_at v s P Q (v == 0) refl hr hs
Decides_or (err e) s P Q hr hs = tt
Decides_or fault s P Q hr hs = tt
Decides_or unfinished s P Q hr hs = tt

pub Decides_and :
    (r s : Result ℕ) (P Q : Type 0)
    → Decides r P
    → Decides s Q
    → Decides (r >>= λ v. elim (v == 0) [ true ↦ s | false ↦ ok 1 ]) (P × Q)
Decides_and (ok v) s P Q hr hs = and_at v s P Q (v == 0) refl hr hs
Decides_and (err e) s P Q hr hs = tt
Decides_and fault s P Q hr hs = tt
Decides_and unfinished s P Q hr hs = tt
