-- ===== src/Indexes/Removed.antt =====
-- lib/index.c: what `index_rm` leaves, and what it returns.
use spocp.Indexes.{Index, rm_loop, index_rm}
use spocp.Prelude.{
  ℕ, List, [], ◌∷◌, Bool, true, false, ◌==◌, ==_iff, if◌then◌else◌, Bool-cases, ◌≡◌, refl, sym, ap,
  subst, ◌∙◌, inl, inr,
}
use spocp.Varr.Members.{Has, NoRepeat}

-- The list without the first instance.
abbrev pub without : ℕ → List ℕ → List ℕ
without ri [] = []
without ri (x ∷ l) = if x == ri then l else x ∷ without ri l

abbrev pub is_last : ℕ → List ℕ → Bool
is_last ri [] = false
is_last ri (x ∷ []) = x == ri
is_last ri (x ∷ y ∷ l) = is_last ri (y ∷ l)

hit :
    (x y : ℕ) (l : List ℕ) (ri : ℕ)
    → (x == ri) ≡ true
    → rm_loop (x ∷ y ∷ l) ri ≡ (y ∷ (rm_loop l ri).0, (rm_loop l ri).1)
unfolding rm_loop
hit x y l ri e = rw (e, rm_loop) refl

miss :
    (x y : ℕ) (l : List ℕ) (ri : ℕ)
    → (x == ri) ≡ false
    → rm_loop (x ∷ y ∷ l) ri ≡ (x ∷ (rm_loop (y ∷ l) ri).0, (rm_loop (y ∷ l) ri).1)
unfolding rm_loop
miss x y l ri e = rw (e, rm_loop) refl

rm_absent : (l : List ℕ) (ri : ℕ) → (Has ri l → ⊥) → rm_loop l ri ≡ (l, false)
rm_absent [] ri h = unfold rm_loop in refl
rm_absent (x ∷ []) ri h = elim (Bool-cases (x == ri)) [
  | inl e ↦ absurd (h (inl (sym ((==_iff x ri).0 e))))
  | inr e ↦ unfold rm_loop in rw e refl
]
rm_absent (x ∷ y ∷ l) ri h = elim (Bool-cases (x == ri)) [
  | inl e ↦ absurd (h (inl (sym ((==_iff x ri).0 e))))
  | inr e ↦
      miss x y l ri e
      ∙ ap (λ (p : List ℕ × Bool). (x ∷ p.0, p.1)) (rm_absent (y ∷ l) ri (λ k. h (inr k)))
]

last_absent : (l : List ℕ) (ri : ℕ) → (Has ri l → ⊥) → is_last ri l ≡ false
last_absent [] ri h = refl
last_absent (x ∷ []) ri h = elim (Bool-cases (x == ri)) [
  | inl e ↦ absurd (h (inl (sym ((==_iff x ri).0 e))))
  | inr e ↦ e
]
last_absent (x ∷ y ∷ l) ri h = last_absent (y ∷ l) ri (λ k. h (inr k))

rm_loop-without : (l : List ℕ) (ri : ℕ) → NoRepeat l → rm_loop l ri ≡ (without ri l, is_last ri l)
rm_loop-without [] ri once = unfold rm_loop in refl
rm_loop-without (x ∷ []) ri once = elim (Bool-cases (x == ri)) [
  | inl e ↦ unfold rm_loop in rw e refl
  | inr e ↦ unfold rm_loop in rw e refl
]
rm_loop-without (x ∷ y ∷ l) ri once = elim (Bool-cases (x == ri)) [
  | inl e ↦
      let gone : Has ri (y ∷ l) → ⊥ = subst (λ t. Has t (y ∷ l) → ⊥) ((==_iff x ri).0 e) once.0 in
      hit x y l ri e
      ∙ ap (λ (p : List ℕ × Bool). (y ∷ p.0, p.1)) (rm_absent l ri (λ k. gone (inr k)))
      ∙ rw (e, last_absent (y ∷ l) ri gone) refl
  | inr e ↦
      miss x y l ri e
      ∙ ap (λ (p : List ℕ × Bool). (x ∷ p.0, p.1)) (rm_loop-without (y ∷ l) ri once.1)
      ∙ rw e refl
]

-- `index_rm` of an array without repetition takes the instance out and leaves the others in their order.
-- It returns TRUE if the instance was the last of the array, and FALSE otherwise, be it there or not.
pub index_rm-without :
    (id : Index) (ri : ℕ)
    → NoRepeat id.arr
    → index_rm id ri ≡ (record { size = id.size; arr = without ri id.arr }, is_last ri id.arr)
unfolding index_rm
index_rm-without id ri once = rw (rm_loop-without id.arr ri once) refl
