-- ===== src/Bcond/First.antt =====
-- lib/bcond.c: `bcond_check` on rules and plug-ins without blobs.
use spocp.Bcond.Boolean.{verdict, Refers, Ordered, Quiet, Valued, bcexp_eval-holds}
use spocp.Bcond.Check.{
  Ruleinst, Checked, checked_rule, evaluated, known_success, recall, judge, add_blob, add_checked,
  bcond_check_from, bcond_check,
}
use spocp.Bcond.Eval.{Calls, is_success, exp_at}
use spocp.Bcond.{Bcexp, Bcdef}
use spocp.Octarr.{Octarr}
use spocp.Prelude.{
  ℕ, Bytes, List, [], ◌∷◌, Option, none, some, Bool, true, false, ◌||◌, ◌==◌, ==_iff, if◌then◌else◌,
  All, Result, Code, ok, success, denied, exists_already, operations_error, syntax_error,
  missing_char, unknown_type, not_supported, unavailable, buf_overflow, ◌≡◌, refl, sym, ap, subst,
  ◌∙◌, inl, inr, Bool-cases,
}

-- A rule has no condition, or one that holds.
unfoldable pub satisfied : (ℕ → Bool) → Ruleinst → Bool
satisfied value ri = elim ri.bcond [ none ↦ true | some d ↦ value d ]

unfoldable pub any_satisfied : (ℕ → Bool) → List Ruleinst → Bool
any_satisfied value [] = false
any_satisfied value (ri ∷ id) = satisfied value ri || any_satisfied value id

-- A rule without a blob whose condition, if there is one, has a definition.
abbrev pub Plain : ℕ → List Bcdef → Ruleinst → Type 0
Plain n defs ri =
    (ri.blob ≡ none)
    × ((d : ℕ) → ri.bcond ≡ some d → (e : Bcexp) × (exp_at defs d ≡ some e) × Refers defs n e)

-- What was found before is without a blob, and a success only of a rule that is satisfied.
abbrev pub Truthful : (ℕ → Bool) → Checked → Type 0
Truthful value_of c = (c.blob ≡ none) × (is_success c.rc ≡ true → value_of c.ri ≡ true)

is_success-eq : (c : Code) → is_success c ≡ true → c ≡ success
is_success-eq success h = refl
is_success-eq denied h = cc
is_success-eq exists_already h = cc
is_success-eq operations_error h = cc
is_success-eq syntax_error h = cc
is_success-eq missing_char h = cc
is_success-eq unknown_type h = cc
is_success-eq not_supported h = cc
is_success-eq unavailable h = cc
is_success-eq buf_overflow h = cc

-- A rule that was checked before: nothing is added, and a success is one.
abbrev Recalled : (ℕ → Bool) → ℕ → Code → Option Octarr → Option Checked → Type 0
Recalled value_of a r oa o =
    (r' : Code) × (recall o r oa ≡ ok (r', oa))
    × (known_success o ≡ true → (r' ≡ success) × (value_of a ≡ true))

recall-checked_rule :
    (value_of : ℕ → Bool) (a : ℕ) (cr : List Checked) (oa : Option Octarr) (r : Code)
    → All (Truthful value_of) cr
    → Recalled value_of a r oa (checked_rule a cr)
unfolding checked_rule recall known_success
recall-checked_rule value_of a [] oa r h = (r, refl, λ e. cc)
recall-checked_rule value_of a (c ∷ cr) oa r h = elim (Bool-cases (c.ri == a)) [
  | inl here ↦ rw here (
    c.rc,
    rw h.0.0 (unfold add_blob in refl),
    λ s. (is_success-eq c.rc s, subst (λ x. value_of x ≡ true) ((==_iff c.ri a).0 here) (h.0.1 s)),
  )
  | inr later ↦ rw later (recall-checked_rule value_of a cr oa r h.1)
]

module _ (n : ℕ) (calls : Calls) (defs : List Bcdef) (answer : ℕ → Bytes → Bool) (value : ℕ → Bool)
    (quiet : Quiet calls defs answer) (ordered : Ordered defs)
    (valued : Valued defs answer value) where
  abbrev Fits : Option ℕ → Type 0
  Fits o = (d : ℕ) → o ≡ some d → (e : Bcexp) × (exp_at defs d ≡ some e) × Refers defs n e

  judge-satisfied :
      (o : Option ℕ) (oa : Option Octarr)
      → Fits o
      → judge n calls defs none oa o
        ≡ ok (verdict (elim o [ none ↦ true | some d ↦ value d ]), none, oa)
  unfolding judge
  judge-satisfied none oa fits = refl
  judge-satisfied (some d) oa fits =
      let (e, found, refs) = fits d refl in
      ap (evaluated n calls defs oa) found
      ∙ unfold evaluated in
        rw
          (
            bcexp_eval-holds calls defs answer value n e quiet ordered valued refs
                (quiet d e found),
            valued d e found,
          )
          refl

  -- The result of the loop: the verdict, and the blobs of the caller as they were.
  abbrev Says : Bool → Option Octarr → Result (Code × Option Octarr × List Checked) → Type 0
  Says b oa m = (cr : List Checked) × (m ≡ ok (verdict b, oa, cr))

  settled :
      (b b' : Bool) (oa : Option Octarr) (cr : List Checked)
      (rest : Code → Result (Code × Option Octarr × List Checked))
      → Says b' oa (rest denied)
      → Says
          (b || b')
          oa
          (if is_success (verdict b) then ok (verdict b, oa, cr) else rest (verdict b))
  settled true b' oa cr rest h = (cr, refl)
  settled false b' oa cr rest h = h

  module _ (value_of : ℕ → Bool) where
    abbrev pub IsRule : Ruleinst → Type 0
    IsRule ri = Plain n defs ri × (value_of ri.address ≡ satisfied value ri)

    bcond_check_from-any_satisfied :
        (id : List Ruleinst) (oa : Option Octarr) (cr : List Checked)
        → All IsRule id
        → All (Truthful value_of) cr
        → Says (any_satisfied value id) oa (bcond_check_from n calls defs denied id oa cr)
    unfolding bcond_check_from any_satisfied satisfied
    bcond_check_from-any_satisfied [] oa cr rules before = (cr, refl)
    bcond_check_from-any_satisfied (ri ∷ id) oa cr rules before =
        let (r, e, k) = recall-checked_rule value_of ri.address cr oa denied before in
        elim (Bool-cases (known_success (checked_rule ri.address cr))) [
          | inl known ↦
              let (succeeds, true_of) = k known in
              let sat = sym rules.0.1 ∙ true_of in rw (e, known, succeeds, sat) (cr, refl)
          | inr unknown ↦
              rw (e, unknown, rules.0.0.0, judge-satisfied ri.bcond oa rules.0.0.1)
                (settled (satisfied value ri) (any_satisfied value id) oa
                  (add_checked ri.address (verdict (satisfied value ri)) none cr)
                  (λ c. bcond_check_from n calls defs c id oa cr)
                  (bcond_check_from-any_satisfied id oa cr rules.1 before))
        ]

-- `bcond_check` of rules without blobs, with tests that are answered without one, ends: its code is a success if
-- one of the rules has no condition or one that holds, and a denial if none has, whatever was found
-- out before, as long as that is true; and no blob is added.
pub bcond_check-any_satisfied :
    (n : ℕ) (calls : Calls) (defs : List Bcdef) (answer : ℕ → Bytes → Bool)
    (value value_of : ℕ → Bool) (id : List Ruleinst) (oa : Option Octarr) (cr : List Checked)
    → Quiet calls defs answer
    → Ordered defs
    → Valued defs answer value
    → All (λ ri. Plain n defs ri × (value_of ri.address ≡ satisfied value ri)) id
    → All (Truthful value_of) cr
    → (cr' : List Checked) × (bcond_check n calls defs id oa cr
        ≡ ok (verdict (any_satisfied value id), oa, cr'))
unfolding bcond_check
bcond_check-any_satisfied n calls defs answer value value_of id oa cr quiet ordered valued rules
      before =
    bcond_check_from-any_satisfied n calls defs answer value quiet ordered valued value_of id oa cr
      rules before
