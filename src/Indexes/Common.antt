-- ===== src/Indexes/Common.antt =====
-- lib/index.c: what `index_and` returns.
use spocp.Indexes.{Index, index_new, put, and_inner, and_outer, larger, is_in, index_and}
use spocp.Indexes.Extended.{put_lem, is_in-true, is_in-false}
use spocp.Prelude.{
  ℕ, ◌+◌, ◌≤◌, List, [], ◌∷◌, ◌++◌, Option, none, some, true, false, ◌==◌, ==_iff, if◌then◌else◌,
  length, length-append, append_assoc, append-nil, Result, ok, ◌>>=◌, Bool-cases, ◌≡◌, refl, sym,
  ap, ◌∙◌, ◌↔◌, inl, inr, arith,
}
use mathlib.Core.Path.{fun_ext, subst}
use spocp.Varr.Members.{Has, NoRepeat}

-- The instances of the first array that the second one has.
abbrev pub common : List ℕ → List ℕ → List ℕ
common [] b = []
common (x ∷ a) b = if is_in x b then x ∷ common a b else common a b

put_then : (res : Index) (x : ℕ) → (put res x >>= λ r. ok r) ≡ put res x
unfolding put
put_then res x = ground arith

-- Against an array without repetition an instance is stored once, or not at all.
and_inner_absent :
    (x : ℕ) (b : List ℕ) (res : Index) → is_in x b ≡ false → and_inner x b res ≡ ok res
unfolding and_inner is_in
and_inner_absent x [] res h = refl
and_inner_absent x (y ∷ b) res h =
    ground (arith, h, and_inner_absent x b res, ==_iff x y, ==_iff y x)

and_inner_hit :
    (x y : ℕ) (b : List ℕ) (res : Index)
    → (x == y) ≡ true
    → is_in x b ≡ false
    → and_inner x (y ∷ b) res ≡ put res x
unfolding and_inner
and_inner_hit x y b res e h =
    rw (e, and_inner)
      (ap (λ k. put res x >>= k) (fun_ext (λ r. and_inner_absent x b r h)) ∙ put_then res x)

and_inner_miss :
    (x y : ℕ) (b : List ℕ) (res : Index)
    → (x == y) ≡ false
    → and_inner x (y ∷ b) res ≡ and_inner x b res
unfolding and_inner
and_inner_miss x y b res e = rw (e, and_inner) refl

not_in : (x : ℕ) (b : List ℕ) → (Has x b → ⊥) → is_in x b ≡ false
not_in x b h = elim (Bool-cases (is_in x b)) [ inl e ↦ absurd (h (is_in-true x b e)) | inr e ↦ e ]

and_inner_present :
    (x : ℕ) (b : List ℕ) (res : Index)
    → NoRepeat b
    → is_in x b ≡ true
    → and_inner x b res ≡ put res x
and_inner_present x [] res once h = unfold is_in in cc
and_inner_present x (y ∷ b) res once h = elim (Bool-cases (x == y)) [
  | inl e ↦ and_inner_hit x y b res e (not_in x b (λ k. once.0 (rw (← (==_iff x y).0 e) k)))
  | inr e ↦
      and_inner_miss x y b res e
      ∙ and_inner_present x b res once.1 (unfold is_in in ground (arith, e, h))
]

outer_old :
    (x : ℕ) (a b : List ℕ) (res : Index)
    → is_in x b ≡ false
    → and_outer (x ∷ a) b res ≡ and_outer a b res
unfolding and_outer
outer_old x a b res e = rw (and_inner_absent x b res e) refl

outer_new :
    (x : ℕ) (a b : List ℕ) (res r : Index)
    → NoRepeat b
    → is_in x b ≡ true
    → put res x ≡ ok r
    → and_outer (x ∷ a) b res ≡ and_outer a b r
unfolding and_outer
outer_new x a b res r once e h = rw (and_inner_present x b res once e, h) refl

-- The loops find room for every common instance.
and_outer_lem :
    (a b : List ℕ) (res : Index)
    → NoRepeat b
    → length res.arr + length a ≤ res.size
    → (r : Index) × (and_outer a b res ≡ ok r) × (r.arr ≡ res.arr ++ common a b)
and_outer_lem [] b res once room = (res, unfold and_outer in refl, sym (append-nil res.arr))
and_outer_lem (x ∷ a) b res once room = elim (Bool-cases (is_in x b)) [
  | inl e ↦
      let res1 : Index = record { size = res.size; arr = res.arr ++ (x ∷ []) } in
      let (r, eq, arr) =
        and_outer_lem a b res1 once (omega (arith, length-append res.arr (x ∷ []))) in
      (
        r,
        outer_new x a b res res1 once e (put_lem res x (omega arith)) ∙ eq,
        arr ∙ rw e (append_assoc res.arr (x ∷ []) (common a b)),
      )
  | inr e ↦
      let (r, eq, arr) = and_outer_lem a b res once (omega arith) in
      (r, outer_old x a b res e ∙ eq, arr ∙ rw e refl)
]

common-Has : (v : ℕ) (a b : List ℕ) → Has v (common a b) ↔ (Has v a × Has v b)
common-Has v [] b = (λ h. absurd h, λ h. absurd h.0)
common-Has v (x ∷ a) b =
    let ih = common-Has v a b in
    elim (Bool-cases (is_in x b)) [
      | inl e ↦ rw e (
        λ h. elim h [
          | inl q ↦ (inl q, rw q (is_in-true x b e))
          | inr k ↦ (inr ((ih.0 k).0), (ih.0 k).1)
        ],
        λ h. elim h.0 [ inl q ↦ inl q | inr k ↦ inr (ih.1 (k, h.1)) ],
      )
      | inr e ↦ rw e (
        λ h. (inr ((ih.0 h).0), (ih.0 h).1),
        λ h. elim h.0 [
          | inl q ↦ absurd (is_in-false x b e (rw (← q) (h.1)))
          | inr k ↦ ih.1 (k, h.1)
        ],
      )
    ]

no_more : (l : List ℕ) → (length l == 0) ≡ true → l ≡ []
no_more [] e = refl
no_more (x ∷ l) e = ground (arith, e)

abbrev pub list_of : Option Index → List ℕ
list_of none = []
list_of (some id) = id.arr

-- What `index_and` promises.
abbrev pub Both : Index → Index → Result (Option Index) → Type 0
Both a b res =
    (r : Option Index) × (res ≡ ok r) × ((v : ℕ) → Has v (list_of r) ↔ (Has v a.arr × Has v b.arr))

Both-result :
    (a b r : Index)
    → r.arr ≡ common a.arr b.arr
    → Both a b (if length r.arr == 0 then ok none else ok (some r))
Both-result a b r arr = elim (Bool-cases (length r.arr == 0)) [
  | inl e ↦
      let none_common : common a.arr b.arr ≡ [] = sym arr ∙ no_more r.arr e in
      (
        none,
        rw e refl,
        λ v. (λ h. absurd h, λ h. subst (Has v) none_common ((common-Has v a.arr b.arr).1 h)),
      )
  | inr e ↦ (some r, rw e refl, λ v. rw arr (common-Has v a.arr b.arr))
]

-- `index_and` of arrays, the second without repetition, never writes outside its array, and returns the
-- instances that both have.
pub index_and-Both : (a b : Index) → NoRepeat b.arr → Both a b (index_and (some a) (some b))
unfolding index_and index_new larger
index_and-Both a b once =
    let (r, eq, arr) =
      and_outer_lem a.arr b.arr (index_new (larger (length a.arr) (length b.arr))) once
        (ground arith) in
    rw eq (Both-result a b r arr)
