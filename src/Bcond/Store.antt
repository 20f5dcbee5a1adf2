-- ===== src/Bcond/Store.antt =====
-- lib/bcond.c: the list of definitions that `bcdef_add` builds, in which no reference goes round.
use spocp.Bcond.{
  Stree, null, atom, list, Bcexp, Bcexps, spec, and, or, not, ref, cons, Bcdef, State, Translation,
  says, bcspec_new, bcdef_find, add_user, refer, wrap, both, operator, specify, transv,
  plugin_match, val_of, next_of, is_null,
}
use spocp.Bcond.Boolean.{Refers, AllRefer, Ordered}
use spocp.Bcond.Eval.{exp_at}
use spocp.Octet.Search.{octchr}
use spocp.Prelude.{
  codes, take, drop, ℕ, suc, ◌<◌, Bytes, List, [], ◌∷◌, Option, none, some, true, false, ◌==◌,
  ==_refl, if◌then◌else◌, Result, ok, err, fault, unfinished, ◌>>=◌, Bool-cases, All, ◌≡◌, refl,
  sym, subst, ◌∙◌, inl, inr, arith,
}

-- A definition at an address below the bound, with an expression.
abbrev pub Made : ℕ → Bcdef → Type 0
Made n d = (d.address < n) × ((e : Bcexp) × (d.exp ≡ some e))

-- The definitions have expressions and addresses that are in use, and each refers to earlier ones.
pub record IsStore (s : State) : Type 0 where
  pub made : All (Made s.free) s.defs
  pub ordered : Ordered s.defs

-- A list with the same addresses and expressions.
abbrev pub SameExps : List Bcdef → List Bcdef → Type 0
SameExps l l' = (t : ℕ) → exp_at l' t ≡ exp_at l t

module _ (d : Bcdef) (defs : List Bcdef) (t : ℕ) where
  pub exp_at-here : (d.address == t) ≡ true → exp_at (d ∷ defs) t ≡ d.exp
  unfolding exp_at
  exp_at-here here = rw here refl

  pub exp_at-later : (d.address == t) ≡ false → exp_at (d ∷ defs) t ≡ exp_at defs t
  unfolding exp_at
  exp_at-later later = rw later refl

module _ (d : Bcdef) (defs : List Bcdef) (name : Bytes) where
  find-here : says name d.name ≡ true → bcdef_find (d ∷ defs) name ≡ some d.address
  unfolding bcdef_find
  find-here here = rw here refl

  find-later : says name d.name ≡ false → bcdef_find (d ∷ defs) name ≡ bcdef_find defs name
  unfolding bcdef_find
  find-later later = rw later refl

some-inj : (a b : ℕ) → some a ≡ some b → a ≡ b
some-inj a b e = cc

find-exp :
    (n : ℕ) (defs : List Bcdef) (name : Bytes) (t : ℕ)
    → All (Made n) defs
    → bcdef_find defs name ≡ some t
    → (t < n) × ((e : Bcexp) × (exp_at defs t ≡ some e))
find-exp n [] name t made found = absurd (unfold bcdef_find in cc)
find-exp n (d ∷ defs) name t made found = elim (Bool-cases (says name d.name)) [
  | inl here ↦
      let same = some-inj d.address t (sym (find-here d defs name here) ∙ found) in
      let (e, has) = made.0.1 in
      (
        subst (λ a. a < n) same made.0.0,
        (
          e,
          exp_at-here d defs t (subst (λ a. (d.address == a) ≡ true) same (==_refl d.address))
              ∙ has,
        ),
      )
  | inr later ↦
      find-behind (find-exp n defs name t made.1 (sym (find-later d defs name later) ∙ found))
]
  where
    find-behind :
        (t < n) × ((e : Bcexp) × (exp_at defs t ≡ some e))
        → (t < n) × ((e : Bcexp) × (exp_at (d ∷ defs) t ≡ some e))
    find-behind (below, (e, has)) = elim (Bool-cases (d.address == t)) [
      | inl here ↦ (let (e', has') = made.0.1 in (below, (e', exp_at-here d defs t here ∙ has')))
      | inr later ↦ (below, (e, exp_at-later d defs t later ∙ has))
    ]

add_user-SameExps :
    (defs : List Bcdef) (target user : ℕ) → SameExps defs (add_user defs target user)
unfolding add_user exp_at
add_user-SameExps [] target user t = refl
add_user-SameExps (d ∷ defs) target user t = elim (Bool-cases (d.address == target)) [
  | inl here ↦ rw here refl
  | inr later ↦ rw (later, add_user-SameExps defs target user t) refl
]

add_user-Made :
    (n : ℕ) (defs : List Bcdef) (target user : ℕ)
    → All (Made n) defs
    → All (Made n) (add_user defs target user)
unfolding add_user
add_user-Made n [] target user made = tt
add_user-Made n (d ∷ defs) target user made = elim (Bool-cases (d.address == target)) [
  | inl here ↦ rw here made
  | inr later ↦ rw later (made.0, add_user-Made n defs target user made.1)
]

-- Translations that begin with the definitions of a list, all below an address that is in use.
module _ (start : List Bcdef) (n : ℕ) where
  pub record Good (s : State) : Type 0 where
    pub same : SameExps start s.defs
    pub made : All (Made n) s.defs
    pub used : n < s.free

  abbrev pub After : {A : Type 0} → (A → Type 0) → Result (Option A × State) → Type 0
  After P (ok (none, s)) = Good s
  After P (ok (some a, s)) = Good s × P a
  After P unfinished = ⊥
  After P _ = Unit

  abbrev pub Sound : {A : Type 0} → (A → Type 0) → Translation A → Type 0
  Sound P t = (s : State) → Good s → After P (t s)

  refer-Sound : (name : Bytes) → Sound (Refers start n) (refer name)
  unfolding refer Refers
  refer-Sound name s good = by_target (bcdef_find s.defs name) refl
    where
      by_target :
          (o : Option ℕ)
          → bcdef_find s.defs name ≡ o
          → After (Refers start n) (elim o [
            | none ↦ ok (none, s)
            | some t ↦
                ok (
                  some (ref s.free t),
                  record { defs = add_user s.defs t s.free; free = suc s.free },
                )
          ])
      by_target none found = good
      by_target (some t) found =
          let (below, (e, has)) = find-exp n s.defs name t good.made found in
          (
            record {
              same = λ t'. add_user-SameExps s.defs t s.free t' ∙ good.same t';
              made = add_user-Made n s.defs t s.free good.made;
              used = omega (arith, good.used);
            },
            (below, (e, sym (good.same t) ∙ has)),
          )

  wrap-Sound :
      {A : Type 0} (P : A → Type 0) (make : A → Bcexp) (t : Translation A)
      → ((a : A) → P a → Refers start n (make a))
      → Sound P t
      → Sound (Refers start n) (wrap make t)
  unfolding wrap
  wrap-Sound {A = A} P make t keeps sound s good = by_result (t s) (sound s good)
    where
      by_result :
          (r : Result (Option A × State))
          → After P r
          → After
              (Refers start n)
              (r >>= λ x. ok (elim x.0 [ none ↦ none | some a ↦ some (make a) ], x.1))
      by_result (ok (none, s')) h = h
      by_result (ok (some a, s')) h = (h.0, keeps a h.1)
      by_result (err c) h = tt
      by_result fault h = tt
      by_result unfinished h = h

  both-Sound :
      (one : Translation Bcexp) (rest : Translation Bcexps)
      → Sound (Refers start n) one
      → Sound (AllRefer start n) rest
      → Sound (AllRefer start n) (both one rest)
  unfolding both Refers
  both-Sound one rest sound_one sound_rest s good = of_one (one s) (sound_one s good)
    where
      of_rest :
          (e : Bcexp) (r : Result (Option Bcexps × State))
          → Refers start n e
          → After (AllRefer start n) r
          → After
              (AllRefer start n)
              (r >>= λ y. ok (elim y.0 [ none ↦ none | some es ↦ some (cons e es) ], y.1))
      of_rest e (ok (none, s')) refs h = h
      of_rest e (ok (some es, s')) refs h = (h.0, (refs, h.1))
      of_rest e (err c) refs h = tt
      of_rest e fault refs h = tt
      of_rest e unfinished refs h = h

      of_one :
          (r : Result (Option Bcexp × State))
          → After (Refers start n) r
          → After (AllRefer start n) (
              r >>= λ x. elim x.0 [
                | none ↦ ok (none, x.1)
                | some e ↦ rest x.1 >>= λ y.
                    ok (elim y.0 [ none ↦ none | some es ↦ some (cons e es) ], y.1)
              ])
      of_one (ok (none, s')) h = h
      of_one (ok (some e, s')) h = of_rest e (rest s') h.1 (sound_rest s' h.0)
      of_one (err c) h = tt
      of_one fault h = tt
      of_one unfinished h = h

  nothing-Sound : {A : Type 0} (P : A → Type 0) → Sound P (λ s. ok (none, s))
  nothing-Sound P s good = good

  specify-Sound : (plt : List Bytes) (val : Bytes) → Sound (Refers start n) (specify plt val)
  unfolding specify bcspec_new Refers
  specify-Sound plt val s good = by_colon (octchr val b':')
    where
      by_plugin :
          (k : ℕ) (o : Option ℕ)
          → After (Refers start n) (
              ok (
                elim o [ none ↦ none | some p ↦ some (spec p (take k val) (drop (suc k) val)) ],
                s,
              ))
      by_plugin k none = good
      by_plugin k (some p) = (good, tt)

      by_colon :
          (o : Option ℕ)
          → After (Refers start n) (
              ok (
                elim o [
                  | none ↦ none
                  | some k ↦ elim (plugin_match plt (take k val)) [
                    | none ↦ none
                    | some p ↦ some (spec p (take k val) (drop (suc k) val))
                  ]
                ],
                s,
              ))
      by_colon none = good
      by_colon (some k) = by_plugin k (plugin_match plt (take k val))

  operator-Sound :
      (val : Bytes) (next : Stree) (rest : Translation Bcexp × Translation Bcexps)
      → Sound (Refers start n) rest.0
      → Sound (AllRefer start n) rest.1
      → Sound (Refers start n) (operator val next rest)
  unfolding operator Refers
  operator-Sound val next rest one all = elim (Bool-cases (says val (some (codes "ref")))) [
    | inl r ↦ rw r (refer-Sound (val_of next))
    | inr r ↦ elim (Bool-cases (says val (some (codes "and")))) [
      | inl a ↦ rw (r, a) (wrap-Sound (AllRefer start n) and rest.1 (λ x h. h) all)
      | inr a ↦ elim (Bool-cases (says val (some (codes "or")))) [
        | inl o ↦ rw (r, a, o) (wrap-Sound (AllRefer start n) or rest.1 (λ x h. h) all)
        | inr o ↦ elim (Bool-cases (says val (some (codes "not")))) [
          | inl k ↦ elim (Bool-cases (is_null (next_of next))) [
            | inl last ↦
                rw (r, a, o, k, last) (wrap-Sound (Refers start n) not rest.0 (λ x h. h) one)
            | inr more ↦ rw (r, a, o, k, more) (nothing-Sound (Refers start n))
          ]
          | inr k ↦ rw (r, a, o, k) (nothing-Sound (Refers start n))
        ]
      ]
    ]
  ]

  pub transv-Sound :
      (plt : List Bytes) (st : Stree)
      → Sound (Refers start n) (transv plt st).0 × Sound (AllRefer start n) (transv plt st).1
  unfolding transv Refers
  transv-Sound plt null = (λ s good. tt, λ s good. (good, tt))
  transv-Sound plt (atom val next) =
      let (one, all) = transv-Sound plt next in
      let h : Sound (Refers start n)
          (if is_null next then specify plt val else operator val next (transv plt next)) =
        elim (Bool-cases (is_null next)) [
          | inl last ↦ rw last (specify-Sound plt val)
          | inr more ↦ rw more (operator-Sound val next (transv plt next) one all)
        ] in
      (h, both-Sound _ (transv plt next).1 h all)
  transv-Sound plt (list part next) =
      let h = (transv-Sound plt part).0 in
      (h, both-Sound (transv plt part).0 (transv plt next).1 h (transv-Sound plt next).1)
