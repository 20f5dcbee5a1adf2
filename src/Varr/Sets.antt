-- ===== src/Varr/Sets.antt =====
-- lib/varr.c: arrays as sets of pointers: `varr_find`, `varr_or`, `varr_and` and `varr_rm`.
use spocp.Varr.Members.{
  unsnoc_lem, Has, NoRepeat, Has-append, Finds, find_in-Finds, NoRepeat-snoc, moved, kept,
}
use spocp.Prelude.{
  ℕ, zero, suc, List, [], ◌∷◌, ◌++◌, Option, none, some, true, false, ◌==◌, ==_iff, Bool-cases,
  Result, ok, append-nil, append_assoc, ◌≡◌, refl, sym, ap, ◌∙◌, subst, arith, inl, inr, ◌⊎◌, ◌↔◌,
  ◌>>=◌,
}
use spocp.Varr.Grow.{IsVarr, IsVarrOrNull, varr_add-Added, count-append}
use spocp.Varr.{
  Varr, count, items, find_in, pop_from, unsnoc, varr_add, take_over, varr_or, and_loop, varr_and,
  rm_from, varr_rm,
}

-- The result of a union: it has the pointers of both, and none twice if `a` has none twice.
abbrev pub Union : List ℕ → List ℕ → Result Varr → Type 0
Union a b r =
    (c : Varr) × (r ≡ ok c)
    × IsVarr c
    × ((v : ℕ) → Has v c.arr ↔ (Has v a ⊎ Has v b))
    × (NoRepeat a → NoRepeat c.arr)

-- One pointer of `b` is taken over, and those before it after that.
Union-step :
    (n : ℕ) (a : Varr) (b b' : List ℕ) (w : ℕ) (r : Option ℕ)
    → IsVarr a
    → b ≡ b' ++ (w ∷ [])
    → Finds w a.arr r
    → ((a' : Varr) → IsVarr a' → Union a'.arr b' (take_over n a' b'))
    → Union a.arr b (elim r [
      | none ↦ varr_add (some a) w >>= λ a'. take_over n a' b'
      | some i ↦ take_over n a b'
    ])
Union-step n a b b' w none wf eb absent next =
    let (a', added, wf', l) = varr_add-Added (some a) w wf in
    let (c, e, wfc, has, norep) = next a' wf' in
    (
      c,
      rw added e,
      wfc,
      λ v. members a' c l has v,
      λ h. norep (subst NoRepeat (sym l) (NoRepeat-snoc a.arr w h absent)),
    )
  where
    members :
        (a' c : Varr)
        → a'.arr ≡ a.arr ++ (w ∷ [])
        → ((v : ℕ) → Has v c.arr ↔ (Has v a'.arr ⊎ Has v b'))
        → (v : ℕ) → Has v c.arr ↔ (Has v a.arr ⊎ Has v b)
    members a' c l has v =
        let h : Has v c.arr ↔ (Has v (a.arr ++ (w ∷ [])) ⊎ Has v b') =
          subst (λ m. Has v c.arr ↔ (Has v m ⊎ Has v b')) l (has v) in
        rw eb (moved h (Has-append v a.arr (w ∷ [])) (Has-append v b' (w ∷ [])))
Union-step n a b b' w (some i) wf eb present next =
    let (c, e, wfc, has, norep) = next a wf in
    (
      c,
      e,
      wfc,
      (λ v. rw eb (
          kept (has v)
            (λ k. elim k [ inl q ↦ subst (λ u. Has u a.arr) (sym q) present | inr f ↦ absurd f ])
            (Has-append v b' (w ∷ [])))),
      norep,
    )

take_over-Union :
    (n : ℕ) (a : Varr) (b : List ℕ) → IsVarr a → count b ≡ n → Union a.arr b (take_over n a b)
unfolding take_over pop_from
take_over-Union zero a [] wf e =
    (a, refl, wf, (λ v. (λ h. inl h, λ h. elim h [ inl k ↦ k | inr n ↦ absurd n ])), λ h. h)
take_over-Union zero a (x ∷ b) wf e = absurd (omega (arith, e))
take_over-Union (suc n) a [] wf e = absurd (omega (arith, e))
take_over-Union (suc n) a (x ∷ b) wf e =
    let front = (unsnoc x b).0 in
    let last = (unsnoc x b).1 in
    Union-step n a (x ∷ b) front last (find_in a.arr last) wf (unsnoc_lem x b)
      (find_in-Finds a.arr last)
      (λ a' wf'.
        take_over-Union n a' front wf'
          (omega (arith, e, ap count (unsnoc_lem x b), count-append front (last ∷ []))))

-- `varr_or` of two arrays, the second of which is emptied: it finds room for every pointer, and returns
-- a well-formed array that has the pointers of both, and none of them twice if the first had none
-- twice.
pub varr_or-Union :
    (a b : Varr)
    → IsVarr a
    → (c : Varr) × (varr_or (some a) (some b) false ≡ ok (some c))
      × IsVarr c
      × ((v : ℕ) → Has v c.arr ↔ (Has v a.arr ⊎ Has v b.arr))
      × (NoRepeat a.arr → NoRepeat c.arr)
unfolding varr_or
varr_or-Union a b wf =
    let (c, e, wfc, has, norep) = take_over-Union (count b.arr) a b.arr wf refl in
    (c, rw e refl, wfc, has, norep)

-- The pointers of `a` that are in `b`, in the order of `a`.
abbrev common : List ℕ → List ℕ → List ℕ
common [] b = []
common (x ∷ a) b = elim (find_in b x) [ none ↦ common a b | some i ↦ x ∷ common a b ]

-- The result of an intersection begins with what was there before.
abbrev Intersection : List ℕ → List ℕ → Result (Option Varr) → Type 0
Intersection before found r =
    (c : Option Varr) × (r ≡ ok c) × IsVarrOrNull c × (items c ≡ before ++ found)

and_loop-Intersection :
    (a b : List ℕ) (res : Option Varr)
    → IsVarrOrNull res
    → Intersection (items res) (common a b) (and_loop a b res)
unfolding and_loop
and_loop-Intersection [] b res wf = (res, refl, wf, sym (append-nil (items res)))
and_loop-Intersection (x ∷ a) b res wf =
    go (find_in b x) (λ res' wf'. and_loop-Intersection a b res' wf')
  where
    go :
        (r : Option ℕ)
        → ((res' : Option Varr)
            → IsVarrOrNull res'
            → Intersection (items res') (common a b) (and_loop a b res'))
        → Intersection
            (items res)
            (elim r [ none ↦ common a b | some i ↦ x ∷ common a b ])
            (elim r [
              | none ↦ and_loop a b res
              | some i ↦ varr_add res x >>= λ r. and_loop a b (some r)
            ])
    go none next = next res wf
    go (some i) next =
        let (va', added, wf', l) = varr_add-Added res x wf in
        let (c, e, wfc, found) = next (some va') wf' in
        (
          c,
          rw added e,
          wfc,
          found ∙ ap (λ m. m ++ common a b) l ∙ append_assoc (items res) (x ∷ []) (common a b),
        )

Has-common : (v : ℕ) (a b : List ℕ) → Has v (common a b) ↔ (Has v a × Has v b)
Has-common v [] b = (λ h. absurd h, λ h. absurd h.0)
Has-common v (x ∷ a) b = go (find_in b x) (find_in-Finds b x) (Has-common v a b)
  where
    go :
        (r : Option ℕ)
        → Finds x b r
        → Has v (common a b) ↔ (Has v a × Has v b)
        → Has v (elim r [ none ↦ common a b | some i ↦ x ∷ common a b ])
          ↔ (((v ≡ x) ⊎ Has v a) × Has v b)
    go none absent ih = (
      λ h. let (p, q) = ih.0 h in (inr p, q),
      λ h. elim h.0 [
        | inl e ↦ absurd (absent (subst (λ u. Has u b) e h.1))
        | inr k ↦ ih.1 (k, h.1)
      ],
    )
    go (some i) present ih = (
      λ h. elim h [
        | inl e ↦ (inl e, subst (λ u. Has u b) (sym e) present)
        | inr k ↦ (let (p, q) = ih.0 k in (inr p, q))
      ],
      λ h. elim h.0 [ inl e ↦ inl e | inr k ↦ inr (ih.1 (k, h.1)) ],
    )

-- `varr_and` of two arrays always finds room, and returns an array, or none, that has the pointers
-- that both have.
pub varr_and-Has :
    (a b : Option Varr)
    → (c : Option Varr) × (varr_and a b ≡ ok c)
      × IsVarrOrNull c
      × ((v : ℕ) → Has v (items c) ↔ (Has v (items a) × Has v (items b)))
unfolding varr_and
varr_and-Has a b =
    let (c, e, wf, found) = and_loop-Intersection (items a) (items b) none tt in
    (
      c,
      e,
      wf,
      λ v.
          subst (λ m. Has v m ↔ (Has v (items a) × Has v (items b))) (sym found)
            (Has-common v (items a) (items b)),
    )

rm_from_lem :
    (l : List ℕ) (v : ℕ)
    → Has v l
    → (before after : List ℕ) × (l ≡ before ++ (v ∷ after))
      × (Has v before → ⊥)
      × (rm_from l v ≡ (before ++ after, true))
unfolding rm_from
rm_from_lem [] v h = absurd h
rm_from_lem (x ∷ l) v h = elim (Bool-cases (x == v)) [
  | inl e ↦ ([], l, ap (λ u. u ∷ l) ((==_iff x v).0 e), (λ f. f), rw e refl)
  | inr e ↦
      let tail : Has v l = elim h [ inl q ↦ ground (arith, e, q) | inr k ↦ k ] in
      let (before, after, split, first, removed) = rm_from_lem l v tail in
      (
        x ∷ before,
        after,
        ap (λ m. x ∷ m) split,
        (λ k. elim k [ inl q ↦ ground (arith, e, q) | inr m ↦ first m ]),
        rw (e, removed) refl,
      )
]

-- `varr_rm` of a pointer that the array has returns it and takes out its first occurrence; those
-- before it and behind it stay, in their order.
pub varr_rm_lem :
    (va : Varr) (v : ℕ)
    → Has v va.arr
    → (before after : List ℕ) × (va.arr ≡ before ++ (v ∷ after))
      × (Has v before → ⊥)
      × (varr_rm va v ≡ (record { size = va.size; arr = before ++ after }, v))
unfolding varr_rm
varr_rm_lem va v h =
    let (before, after, split, first, removed) = rm_from_lem va.arr v h in
    (before, after, split, first, rw removed refl)
