-- ===== src/Bcond/Added.antt =====
-- lib/bcond.c: what `bcdef_add` leaves of the definitions.
use spocp.Bcond.{
  Stree, Bcexp, Bcexps, spec, and, or, not, ref, nil, cons, Bcdef, State, transv, transv_stree,
}
use spocp.Bcond.Boolean.{Refers, AllRefer}
use spocp.Bcond.Eval.{exp_at}
use spocp.Bcond.Ends.{parse_bcexp-Ends}
use spocp.Bcond.Parse.{parse_bcexp, enter, bcdef_add, tree_of, is_ref, name_for}
use spocp.Bcond.Store.{Made, IsStore, exp_at-here, exp_at-later, Good, After, transv-Sound}
use spocp.Prelude.{
  ◌⊎◌, All-append, Ends, Stops, left, length, ℕ, suc, ◌≤◌, Bytes, List, [], ◌∷◌, ◌++◌, Option, none,
  some, ◌==◌, ==_iff, Result, ok, err, fault, unfinished, ◌>>=◌, Bool-cases, All, ◌≡◌, refl, sym,
  subst, ◌∙◌, inl, inr, arith,
}

-- Every reference that was to a definition is to one in the other list, and the bound is no lower.
module _ (l l' : List Bcdef) (n n' : ℕ) (more : n ≤ n')
    (kept : (t : ℕ) (e : Bcexp) → exp_at l t ≡ some e → exp_at l' t ≡ some e) where
  mutual
    unfolding Refers

    Refers-mono : (e : Bcexp) → Refers l n e → Refers l' n' e
    Refers-mono (spec plugin name s) h = tt
    Refers-mono (not e) h = Refers-mono e h
    Refers-mono (and arr) h = AllRefer-mono arr h
    Refers-mono (or arr) h = AllRefer-mono arr h
    Refers-mono (ref self target) (below, (e, has)) =
        (omega (arith, below, more), (e, kept target e has))

    AllRefer-mono : (arr : Bcexps) → AllRefer l n arr → AllRefer l' n' arr
    AllRefer-mono nil h = tt
    AllRefer-mono (cons e arr) h = (Refers-mono e h.0, AllRefer-mono arr h.1)

exp_at-append :
    (l : List Bcdef) (d : Bcdef) (t : ℕ) (e : Bcexp)
    → exp_at l t ≡ some e
    → exp_at (l ++ (d ∷ [])) t ≡ some e
exp_at-append [] d t e h = absurd (unfold exp_at in cc)
exp_at-append (d' ∷ l) d t e h = elim (Bool-cases (d'.address == t)) [
  | inl here ↦ exp_at-here d' (l ++ (d ∷ [])) t here ∙ sym (exp_at-here d' l t here) ∙ h
  | inr later ↦
      exp_at-later d' (l ++ (d ∷ [])) t later
      ∙ exp_at-append l d t e (sym (exp_at-later d' l t later) ∙ h)
]

-- What is found with a new definition at the end was found before, or is its own.
exp_at-new :
    (l : List Bcdef) (d : Bcdef) (t : ℕ) (e : Bcexp)
    → exp_at (l ++ (d ∷ [])) t ≡ some e
    → (exp_at l t ≡ some e) ⊎ ((d.address ≡ t) × (d.exp ≡ some e))
exp_at-new [] d t e h = elim (Bool-cases (d.address == t)) [
  | inl here ↦ inr ((==_iff d.address t).0 here, sym (exp_at-here d [] t here) ∙ h)
  | inr later ↦ inl (sym (exp_at-later d [] t later) ∙ h)
]
exp_at-new (d' ∷ l) d t e h = elim (Bool-cases (d'.address == t)) [
  | inl here ↦ inl (exp_at-here d' l t here ∙ sym (exp_at-here d' (l ++ (d ∷ [])) t here) ∙ h)
  | inr later ↦ elim (exp_at-new l d t e (sym (exp_at-later d' (l ++ (d ∷ [])) t later) ∙ h)) [
    | inl old ↦ inl (exp_at-later d' l t later ∙ old)
    | inr own ↦ inr own
  ]
]

pub exp-inj : (a b : Bcexp) → some a ≡ some b → a ≡ b
exp-inj a b e = cc

Made-mono : (n n' : ℕ) (l : List Bcdef) → n ≤ n' → All (Made n) l → All (Made n') l
Made-mono n n' [] le h = tt
Made-mono n n' (d ∷ l) le h = ((omega (arith, le, h.0.0), h.0.1), Made-mono n n' l le h.1)

-- The definitions of the first state have the same expressions in the second.
abbrev pub Grown : State → State → Type 0
Grown s s' = (t : ℕ) (e : Bcexp) → exp_at s.defs t ≡ some e → exp_at s'.defs t ≡ some e

-- What `bcdef_add` leaves: a list of definitions as it was before, and the new one, whose references
-- are to definitions made before it.
abbrev pub Entered : State → Result (Option Bcdef × State) → Type 0
Entered s (ok (none, s')) = IsStore s' × Grown s s'
Entered s (ok (some d, s')) =
    IsStore s' × Grown s s' × ((e : Bcexp) × (d.exp ≡ some e) × Refers s'.defs d.address e)
Entered s unfinished = ⊥
Entered s _ = Unit

module _ (s : State) (wf : IsStore s) where
  Good-start : Good s.defs s.free (record { defs = s.defs; free = suc s.free })
  Good-start = record { same = λ t. refl; made = wf.made; used = omega arith }

  module _ (s' : State) (good : Good s.defs s.free s') where
    Good-Grown : Grown s s'
    Good-Grown t e h = good.same t ∙ h

    Good-IsStore : IsStore s'
    Good-IsStore = record {
      made = Made-mono s.free s'.free s'.defs (omega (arith, good.used)) good.made;
      ordered = λ t e h.
          Refers-mono s.defs s'.defs t t (omega arith) Good-Grown e
            (wf.ordered t e (sym (good.same t) ∙ h));
    }

    module _ (name : Option Bytes) (bce : Bcexp) (refs : Refers s.defs s.free bce) where
      abbrev d : Bcdef
      d = record { address = s.free; name = name; exp = some bce; users = [] }

      abbrev more : State
      more = record { defs = s'.defs ++ (d ∷ []); free = s'.free }

      kept : Grown s more
      kept t e h = exp_at-append s'.defs d t e (Good-Grown t e h)

      own_refs : Refers more.defs s.free bce
      own_refs = Refers-mono s.defs more.defs s.free s.free (omega arith) kept bce refs

      -- The list with the new definition at its end.
      entered : IsStore more
      entered = record {
        made =
            All-append (Made s'.free) s'.defs (d ∷ []) (Good-IsStore.made)
              ((good.used, (bce, refl)), tt);
        ordered = λ t e h. elim (exp_at-new s'.defs d t e h) [
          | inl old ↦
              Refers-mono s.defs more.defs t t (omega arith) kept e
                (wf.ordered t e (sym (good.same t) ∙ old))
          | inr own ↦
              subst (λ x. Refers more.defs t x) (exp-inj bce e own.1)
                (Refers-mono s.defs more.defs s.free t (omega (arith, own.0)) kept bce refs)
        ];
      }

    -- A reference alone is not put into the list.
    enter-Entered :
        (digest : Bytes → Bytes) (name : Option Bytes) (data_ : Bytes) (bce : Bcexp)
        → Refers s.defs s.free bce
        → let z = enter digest name data_ s.free bce s' in Entered s (ok (some z.0, z.1))
    unfolding enter
    enter-Entered digest name data_ bce refs = elim (Bool-cases (is_ref bce)) [
      | inl alone ↦ rw alone (
        Good-IsStore,
        Good-Grown,
        (bce, refl, Refers-mono s.defs s'.defs s.free s.free (omega arith) Good-Grown bce refs),
      )
      | inr named ↦
          let n = some (name_for digest name data_) in
          rw named (entered n bce refs, kept n bce refs, (bce, refl, own_refs n bce refs))
    ]

  translated :
      (digest : Bytes → Bytes) (name : Option Bytes) (data_ : Bytes)
      (r : Result (Option Bcexp × State))
      → After s.defs s.free (Refers s.defs s.free) r
      → Entered s (
          r >>= λ y. elim y.0 [
            | none ↦ ok (none, y.1)
            | some bce ↦ (let z = enter digest name data_ s.free bce y.1 in ok (some z.0, z.1))
          ])
  translated digest name data_ (ok (none, s')) h = (Good-IsStore s' h, Good-Grown s' h)
  translated digest name data_ (ok (some bce, s')) h =
      enter-Entered s' h.0 digest name data_ bce h.1
  translated digest name data_ (err c) h = tt
  translated digest name data_ fault h = tt
  translated digest name data_ unfinished h = h

-- `tree_of` ends on every text.
tree_of-Stops : (data_ : Bytes) → Stops (tree_of data_)
unfolding tree_of
tree_of-Stops [] = tt
tree_of-Stops (c ∷ data_) = elim (Bool-cases (c == b'(')) [
  | inl opened ↦ rw opened (Ends-Stops (parse_bcexp (c ∷ data_)) (parse_bcexp-Ends (c ∷ data_)))
  | inr other ↦ rw other (omega arith)
]
  where
    Ends-Stops : (r : Result (Stree × Bytes)) → Ends left (length (c ∷ data_)) r → Stops r
    Ends-Stops (ok x) h = omega arith
    Ends-Stops (err e) h = tt
    Ends-Stops fault h = tt
    Ends-Stops unfinished h = h

-- `bcdef_add` ends. The definitions stay with the expressions they had; the list is well formed
-- afterwards, whether the text was accepted or not; and a definition that is returned has an
-- expression that refers to definitions of the list made before it.
pub bcdef_add-Entered :
    (digest : Bytes → Bytes) (p : List Bytes) (name : Option Bytes) (data_ : Bytes) (s : State)
    → IsStore s
    → Entered s (bcdef_add digest p name data_ s)
unfolding bcdef_add transv_stree
bcdef_add-Entered digest p name data_ s wf = by_tree (tree_of data_) (tree_of-Stops data_)
  where
    start : State
    start = record { defs = s.defs; free = suc s.free }

    by_tree :
        (r : Result (Stree × Bytes))
        → Stops r
        → Entered s (elim r [
          | err code ↦ ok (none, s)
          | ok x ↦ (transv p x.0).0 start >>= λ y. elim y.0 [
            | none ↦ ok (none, y.1)
            | some bce ↦ (let z = enter digest name x.1 s.free bce y.1 in ok (some z.0, z.1))
          ]
          | fault ↦ fault
          | unfinished ↦ unfinished
        ])
    by_tree (ok (st, rest)) h =
        translated s wf digest name rest ((transv p st).0 start)
          ((transv-Sound s.defs s.free p st).0 start (Good-start s wf))
    by_tree (err c) h = (wf, λ t e found. found)
    by_tree fault h = tt
    by_tree unfinished h = h
