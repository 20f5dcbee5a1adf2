-- ===== src/Indexes/Extended.antt =====
-- lib/index.c: what is in an array after `index_add` and `index_extend`.
use spocp.Indexes.{Index, put, doubled, index_add, is_in, extend_loop, index_extend}
use spocp.Prelude.{
  ℕ, ◌≤◌, ◌<◌, List, [], ◌∷◌, ◌++◌, Option, some, true, false, ◌==◌, ==_iff, length, length-append,
  Result, ok, ◌>>=◌, Bool-cases, ◌≡◌, ◌≢◌, refl, sym, ap, ◌∙◌, ◌⊎◌, ◌↔◌, inl, inr, arith,
}
use spocp.Varr.Members.{Has, Has-append, NoRepeat, NoRepeat-snoc}

-- An array with room for something, that has no more than it has room for.
abbrev pub IsIndex : Index → Type 0
IsIndex id = (0 < id.size) × (length id.arr ≤ id.size)

pub put_lem :
    (id : Index) (ri : ℕ)
    → length id.arr < id.size
    → put id ri ≡ ok (record { size = id.size; arr = id.arr ++ (ri ∷ []) })
unfolding put
put_lem id ri h = ground (arith, h)

-- The array behind an instance that was added.
abbrev Adds : Index → ℕ → Result (Option Index) → Type 0
Adds a x r = (a' : Index) × (r ≡ ok (some a')) × IsIndex a' × (a'.arr ≡ a.arr ++ (x ∷ []))

doubled_room : (a : Index) → IsIndex a → length (doubled a).arr < (doubled a).size
unfolding doubled
doubled_room a h = ground arith

doubled_same : (a : Index) → (doubled a).arr ≡ a.arr
unfolding doubled
doubled_same a = ground arith

index_add_real :
    (a : Index) (x : ℕ) → x ≢ 0 → index_add (some a) x ≡ (put (doubled a) x >>= λ i. ok (some i))
unfolding index_add
index_add_real a x real = elim (Bool-cases (x == 0)) [
  | inl e ↦ absurd (real ((==_iff x 0).0 e))
  | inr e ↦ rw e refl
]

index_add-Adds : (a : Index) (x : ℕ) → IsIndex a → x ≢ 0 → Adds a x (index_add (some a) x)
index_add-Adds a x h real = (
  record { size = (doubled a).size; arr = (doubled a).arr ++ (x ∷ []) },
  rw (index_add_real a x real, put_lem (doubled a) x (doubled_room a h)) refl,
  omega (arith, doubled_room a h, length-append (doubled a).arr (x ∷ [])),
  ap (λ l. l ++ (x ∷ [])) (doubled_same a),
)

pub is_in-true : (v : ℕ) (l : List ℕ) → is_in v l ≡ true → Has v l
unfolding is_in
is_in-true v [] h = cc
is_in-true v (x ∷ l) h = ground (arith, is_in-true v l)

pub is_in-false : (v : ℕ) (l : List ℕ) → is_in v l ≡ false → Has v l → ⊥
unfolding is_in
is_in-false v [] h k = k
is_in-false v (x ∷ l) h (inl e) = ground (arith, h, e)
is_in-false v (x ∷ l) h (inr k) = ground (arith, h, is_in-false v l, k)

-- Every instance of an array that has it, or of the other one, and no other.
abbrev pub Union : Index → List ℕ → Index → Type 0
Union a b a' = IsIndex a' × NoRepeat a'.arr × ((v : ℕ) → Has v a'.arr ↔ (Has v a.arr ⊎ Has v b))

extend_old :
    (x : ℕ) (b : List ℕ) (a : Index)
    → is_in x a.arr ≡ true
    → extend_loop (x ∷ b) a ≡ extend_loop b a
unfolding extend_loop
extend_old x b a e = rw (e, extend_loop) refl

extend_new :
    (x : ℕ) (b : List ℕ) (a a' : Index)
    → is_in x a.arr ≡ false
    → index_add (some a) x ≡ ok (some a')
    → extend_loop (x ∷ b) a ≡ extend_loop b a'
unfolding extend_loop
extend_new x b a a' e h = rw (e, h, extend_loop) refl

snoc-Has : (v x : ℕ) (l : List ℕ) → Has v (l ++ (x ∷ [])) ↔ (Has v l ⊎ (v ≡ x))
snoc-Has v x l = (
  λ h. elim ((Has-append v l (x ∷ [])).0 h) [
    | inl k ↦ inl k
    | inr k ↦ elim k [ inl e ↦ inr e | inr f ↦ absurd f ]
  ],
  λ h. elim h [
    | inl k ↦ (Has-append v l (x ∷ [])).1 (inl k)
    | inr e ↦ (Has-append v l (x ∷ [])).1 (inr (inl e))
  ],
)

Has_at : (v x : ℕ) (l : List ℕ) → v ≡ x → Has x l → Has v l
Has_at v x l e h = rw e h

-- The instances of a longer array, told from the two that it was made of.
Union-old : (x : ℕ) (b : List ℕ) (a a' : Index) → Has x a.arr → Union a b a' → Union a (x ∷ b) a'
Union-old x b a a' has u = (
  u.0,
  u.1,
  λ v. (
    λ h. elim ((u.2 v).0 h) [ inl k ↦ inl k | inr k ↦ inr (inr k) ],
    λ h. elim h [
      | inl k ↦ (u.2 v).1 (inl k)
      | inr k ↦ elim k [
        | inl e ↦ (u.2 v).1 (inl (Has_at v x a.arr e has))
        | inr m ↦ (u.2 v).1 (inr m)
      ]
    ],
  ),
)

Union-new :
    (x : ℕ) (b : List ℕ) (a a1 a' : Index)
    → a1.arr ≡ a.arr ++ (x ∷ [])
    → Union a1 b a'
    → Union a (x ∷ b) a'
Union-new x b a a1 a' arr u = (
  u.0,
  u.1,
  λ v.
      let both : Has v a1.arr ↔ (Has v a.arr ⊎ (v ≡ x)) = rw arr (snoc-Has v x a.arr) in
      (
        λ h. elim ((u.2 v).0 h) [
          | inl k ↦ elim (both.0 k) [ inl m ↦ inl m | inr e ↦ inr (inl e) ]
          | inr k ↦ inr (inr k)
        ],
        λ h. elim h [
          | inl k ↦ (u.2 v).1 (inl (both.1 (inl k)))
          | inr k ↦ elim k [ inl e ↦ (u.2 v).1 (inl (both.1 (inr e))) | inr m ↦ (u.2 v).1 (inr m) ]
        ],
      ),
)

extend_loop-Union :
    (b : List ℕ) (a : Index)
    → IsIndex a
    → NoRepeat a.arr
    → (Has 0 b → ⊥)
    → (a' : Index) × (extend_loop b a ≡ ok a') × Union a b a'
extend_loop-Union [] a h once real = (
  a,
  unfold extend_loop in refl,
  (h, once, λ v. (λ k. inl k, λ k. elim k [ inl m ↦ m | inr f ↦ absurd f ])),
)
extend_loop-Union (x ∷ b) a h once real = elim (Bool-cases (is_in x a.arr)) [
  | inl e ↦
      let (a', eq, u) = extend_loop-Union b a h once (λ k. real (inr k)) in
      (a', extend_old x b a e ∙ eq, Union-old x b a a' (is_in-true x a.arr e) u)
  | inr e ↦
      let (a1, added, h1, arr) = index_add-Adds a x h (λ z. real (inl (sym z))) in
      let once1 : NoRepeat a1.arr = rw arr (NoRepeat-snoc a.arr x once (is_in-false x a.arr e)) in
      let (a', eq, u) = extend_loop-Union b a1 h1 once1 (λ k. real (inr k)) in
      (a', extend_new x b a a1 e added ∙ eq, Union-new x b a a1 a' arr u)
]

-- `index_extend` of an array without repetition by one without a null pointer leaves, without repetition,
-- the instances of both.
pub index_extend-Union :
    (a b : Index)
    → IsIndex a
    → NoRepeat a.arr
    → (Has 0 b.arr → ⊥)
    → (a' : Index) × (index_extend (some a) (some b) ≡ ok (some a')) × Union a b.arr a'
unfolding index_extend
index_extend-Union a b h once real =
    let (a', eq, u) = extend_loop-Union b.arr a h once real in (a', rw eq refl, u)
