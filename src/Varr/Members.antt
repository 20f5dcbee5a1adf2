-- ===== src/Varr/Members.antt =====
-- lib/varr.c: the pointers that an array has, as a relation, and what `varr_find` says of them.
use spocp.Prelude.{
  ℕ, suc, List, [], ◌∷◌, ◌++◌, Option, none, some, Bool, true, false, ◌==◌, ==_iff, ◌≡◌, refl, sym,
  ap, arith, inl, inr, ◌⊎◌, ◌↔◌, if◌then◌else◌,
}
use spocp.Varr.{find_in, unsnoc}

abbrev pub Has : ℕ → List ℕ → Type 0
Has v [] = ⊥
Has v (x ∷ l) = (v ≡ x) ⊎ Has v l

abbrev pub NoRepeat : List ℕ → Type 0
NoRepeat [] = Unit
NoRepeat (x ∷ l) = (Has x l → ⊥) × NoRepeat l

pub Has-append : (v : ℕ) (a b : List ℕ) → Has v (a ++ b) ↔ (Has v a ⊎ Has v b)
Has-append v [] b = (λ h. inr h, λ h. elim h [ inl n ↦ absurd n | inr k ↦ k ])
Has-append v (x ∷ a) b =
    let ih = Has-append v a b in
    (
      λ h. elim h [
        | inl e ↦ inl (inl e)
        | inr k ↦ elim (ih.0 k) [ inl m ↦ inl (inr m) | inr m ↦ inr m ]
      ],
      λ h. elim h [
        | inl k ↦ elim k [ inl e ↦ inl e | inr m ↦ inr (ih.1 (inl m)) ]
        | inr m ↦ inr (ih.1 (inr m))
      ],
    )

-- What `find_in` answers: an index for a pointer in the list, and none for another.
abbrev pub Finds : ℕ → List ℕ → Option ℕ → Type 0
Finds v l none = Has v l → ⊥
Finds v l (some i) = Has v l

pub find_in-Finds : (l : List ℕ) (v : ℕ) → Finds v l (find_in l v)
unfolding find_in
find_in-Finds [] v = λ h. h
find_in-Finds (x ∷ l) v = go (x == v) refl (find_in l v) (find_in-Finds l v)
  where
    go :
        (t : Bool)
        → (x == v) ≡ t
        → (r : Option ℕ) → Finds v l r
        → Finds v (x ∷ l) (if t then some 0 else elim r [ none ↦ none | some i ↦ some (suc i) ])
    go true e r h = inl (sym ((==_iff x v).0 e))
    go false e none h = λ k. elim k [ inl q ↦ ground (arith, e, q) | inr m ↦ h m ]
    go false e (some i) h = inr h

pub NoRepeat-snoc : (l : List ℕ) (v : ℕ) → NoRepeat l → (Has v l → ⊥) → NoRepeat (l ++ (v ∷ []))
NoRepeat-snoc [] v h n = ((λ k. k), tt)
NoRepeat-snoc (x ∷ l) v (h, hs) n = (
  (λ k. elim ((Has-append x l (v ∷ [])).0 k) [
    | inl m ↦ h m
    | inr m ↦ elim m [ inl e ↦ n (inl (sym e)) | inr f ↦ f ]
  ]),
  NoRepeat-snoc l v hs (λ k. n (inr k)),
)

pub unsnoc_lem : (x : ℕ) (l : List ℕ) → (x ∷ l) ≡ ((unsnoc x l).0 ++ ((unsnoc x l).1 ∷ []))
unfolding unsnoc
unsnoc_lem x [] = refl
unsnoc_lem x (y ∷ l) = ap (λ m. x ∷ m) (unsnoc_lem y l)

pub moved :
    {C AW A W BW B : Type 0} (h : C ↔ (AW ⊎ B)) (ha : AW ↔ (A ⊎ W)) (hb : BW ↔ (B ⊎ W))
    → C ↔ (A ⊎ BW)
moved h ha hb = (
  λ c. elim (h.0 c) [
    | inl aw ↦ elim (ha.0 aw) [ inl a ↦ inl a | inr w ↦ inr (hb.1 (inr w)) ]
    | inr b ↦ inr (hb.1 (inl b))
  ],
  λ x. elim x [
    | inl a ↦ h.1 (inl (ha.1 (inl a)))
    | inr bw ↦ elim (hb.0 bw) [ inl b ↦ h.1 (inr b) | inr w ↦ h.1 (inl (ha.1 (inr w))) ]
  ],
)

pub kept : {C A W BW B : Type 0} (h : C ↔ (A ⊎ B)) (k : W → A) (hb : BW ↔ (B ⊎ W)) → C ↔ (A ⊎ BW)
kept h k hb = (
  λ c. elim (h.0 c) [ inl a ↦ inl a | inr b ↦ inr (hb.1 (inl b)) ],
  λ x. elim x [
    | inl a ↦ h.1 (inl a)
    | inr bw ↦ elim (hb.0 bw) [ inl b ↦ h.1 (inr b) | inr w ↦ h.1 (inl (k w)) ]
  ],
)
