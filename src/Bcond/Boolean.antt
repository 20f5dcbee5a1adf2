-- ===== src/Bcond/Boolean.antt =====
-- lib/bcond.c: on plug-ins without blobs a boundary condition is a Boolean expression.
use spocp.Bcond.{Bcexp, Bcexps, spec, and, or, not, ref, nil, cons, Bcdef}
use spocp.Bcond.Eval.{
  Calls, bcond_eval, is_success, blob_of, gather, hand_over, negate, eval_at, and_loop, or_loop,
  exp_at, deref, deref_found, bcexp_eval,
}
use spocp.Octarr.{Octarr}
use spocp.Prelude.{
  ℕ, zero, suc, ◌<◌, Bytes, List, [], Option, none, some, Bool, true, false, ◌&&◌, ◌||◌,
  if◌then◌else◌, Result, Code, ok, success, denied, ◌>>=◌, ◌≡◌, refl, arith,
}
use mathlib.Core.Bool

-- The Boolean value of an expression: `answer` has those of the specifications, `value` those of the
-- definitions at their addresses.
unfoldable mutual
  pub holds : (answer : ℕ → Bytes → Bool) → (value : ℕ → Bool) → Bcexp → Bool
  holds answer value (spec plugin name s) = answer plugin s
  holds answer value (not e) = Bool.not (holds answer value e)
  holds answer value (and arr) = all_hold answer value arr
  holds answer value (or arr) = any_holds answer value arr
  holds answer value (ref self target) = value target

  pub all_hold : (answer : ℕ → Bytes → Bool) → (value : ℕ → Bool) → Bcexps → Bool
  all_hold answer value nil = true
  all_hold answer value (cons e arr) = holds answer value e && all_hold answer value arr

  pub any_holds : (answer : ℕ → Bytes → Bool) → (value : ℕ → Bool) → Bcexps → Bool
  any_holds answer value nil = false
  any_holds answer value (cons e arr) = holds answer value e || any_holds answer value arr

abbrev pub verdict : Bool → Code
verdict b = if b then success else denied

-- Every reference is to a definition with an address below the bound.
unfoldable mutual
  pub Refers : (List Bcdef) → ℕ → Bcexp → Type 0
  Refers defs n (spec plugin name s) = Unit
  Refers defs n (not e) = Refers defs n e
  Refers defs n (and arr) = AllRefer defs n arr
  Refers defs n (or arr) = AllRefer defs n arr
  Refers defs n (ref self target) = (target < n) × ((e : Bcexp) × (exp_at defs target ≡ some e))

  pub AllRefer : (List Bcdef) → ℕ → Bcexps → Type 0
  AllRefer defs n nil = Unit
  AllRefer defs n (cons e arr) = Refers defs n e × AllRefer defs n arr

-- A definition refers to definitions with lower addresses alone.
abbrev pub Ordered : List Bcdef → Type 0
Ordered defs = (t : ℕ) (e : Bcexp) → exp_at defs t ≡ some e → Refers defs t e

-- Each test of the expression is answered, without a blob.
unfoldable mutual
  pub Answered : Calls → (ℕ → Bytes → Bool) → Bcexp → Type 0
  Answered calls answer (spec plugin name s) =
      bcond_eval calls plugin s ≡ ok (verdict (answer plugin s), [])
  Answered calls answer (not e) = Answered calls answer e
  Answered calls answer (and arr) = AllAnswered calls answer arr
  Answered calls answer (or arr) = AllAnswered calls answer arr
  Answered calls answer (ref self target) = Unit

  pub AllAnswered : Calls → (ℕ → Bytes → Bool) → Bcexps → Type 0
  AllAnswered calls answer nil = Unit
  AllAnswered calls answer (cons e arr) = Answered calls answer e × AllAnswered calls answer arr

-- The tests of the definitions are answered.
abbrev pub Quiet : Calls → List Bcdef → (ℕ → Bytes → Bool) → Type 0
Quiet calls defs answer = (t : ℕ) (e : Bcexp) → exp_at defs t ≡ some e → Answered calls answer e

-- What the operators make of the verdict on a part.
negated :
    (b : Bool)
    → hand_over (negate (verdict b)) (if is_success (verdict b) then none else none) none
      ≡ ok (verdict (Bool.not b), none)
unfolding hand_over negate
negated true = refl
negated false = refl

passed : (b : Bool) → hand_over (verdict b) none none ≡ ok (verdict b, none)
unfolding hand_over
passed b = refl

both_hold :
    (b b' : Bool) (rest : Result (Code × Option Octarr))
    → rest ≡ ok (verdict b', none)
    → (if is_success (verdict b) then rest else ok (verdict b, none)) ≡ ok (verdict (b && b'), none)
both_hold true b' rest e = e
both_hold false b' rest e = refl

one_holds :
    (b b' : Bool) (rest : Code → Result (Code × Option Octarr))
    → rest denied ≡ ok (verdict b', none)
    → (if is_success (verdict b) then ok (verdict b, none) else rest (verdict b))
      ≡ ok (verdict (b || b'), none)
one_holds true b' rest e = refl
one_holds false b' rest e = e

answered :
    (b : Bool)
    → (blob_of (verdict b) [] >>= λ lo. hand_over (verdict b) lo none) ≡ ok (verdict b, none)
unfolding blob_of hand_over
answered true = refl
answered false = refl

module _ (fuel : ℕ) (calls : Calls) (defs : List Bcdef) (answer : ℕ → Bytes → Bool)
    (value : ℕ → Bool) (f : ℕ → Option Octarr → Result (Code × Option Octarr)) (n : ℕ)
    (at : (t : ℕ) (e : Bcexp)
      → t < n
      → exp_at defs t ≡ some e
      → f t none ≡ ok (verdict (value t), none)) where
  mutual
    unfolding eval_at holds Refers gather Answered

    eval_at-holds :
        (e : Bcexp)
        → Refers defs n e
        → Answered calls answer e
        → eval_at fuel calls f e none ≡ ok (verdict (holds answer value e), none)
    eval_at-holds (spec plugin name s) refs ans = rw ans (answered (answer plugin s))
    eval_at-holds (not e) refs ans = rw (eval_at-holds e refs ans) (negated (holds answer value e))
    eval_at-holds (and arr) refs ans =
        rw (and_loop-holds arr refs ans) (passed (all_hold answer value arr))
    eval_at-holds (or arr) refs ans =
        rw (or_loop-holds arr refs ans) (passed (any_holds answer value arr))
    eval_at-holds (ref self target) (below, (e, found)) ans =
        rw (at target e below found) (passed (value target))

    and_loop-holds :
        (arr : Bcexps)
        → AllRefer defs n arr
        → AllAnswered calls answer arr
        → and_loop fuel calls f arr none ≡ ok (verdict (all_hold answer value arr), none)
    and_loop-holds nil refs ans = refl
    and_loop-holds (cons e arr) refs ans = rw (eval_at-holds e refs.0 ans.0) (
        both_hold (holds answer value e) (all_hold answer value arr)
          (and_loop fuel calls f arr none) (and_loop-holds arr refs.1 ans.1))

    or_loop-holds :
        (arr : Bcexps)
        → AllRefer defs n arr
        → AllAnswered calls answer arr
        → or_loop fuel calls f denied arr none ≡ ok (verdict (any_holds answer value arr), none)
    or_loop-holds nil refs ans = refl
    or_loop-holds (cons e arr) refs ans = rw (eval_at-holds e refs.0 ans.0) (
        one_holds (holds answer value e) (any_holds answer value arr)
          (λ r. or_loop fuel calls f r arr none) (or_loop-holds arr refs.1 ans.1))

-- The values of the definitions are those of their expressions.
abbrev pub Valued : List Bcdef → (ℕ → Bytes → Bool) → (ℕ → Bool) → Type 0
Valued defs answer value =
    (t : ℕ) (e : Bcexp) → exp_at defs t ≡ some e → value t ≡ holds answer value e

deref-holds :
    (calls : Calls) (defs : List Bcdef) (answer : ℕ → Bytes → Bool) (value : ℕ → Bool)
    → Quiet calls defs answer
    → Ordered defs
    → Valued defs answer value
    → (fuel t : ℕ) (e : Bcexp) → t < fuel
    → exp_at defs t ≡ some e
    → deref fuel calls defs t none ≡ ok (verdict (value t), none)
deref-holds calls defs answer value quiet ordered valued zero t e below found =
    absurd (omega (arith, below))
deref-holds calls defs answer value quiet ordered valued (suc fuel) t e below found =
    rw (deref_found fuel calls defs t e none found, valued t e found)
      (eval_at-holds fuel calls defs answer value (deref fuel calls defs) t
        (λ t' e' lower.
          deref-holds calls defs answer value quiet ordered valued fuel t' e'
            (omega (arith, lower, below)))
        e (ordered t e found) (quiet t e found))

-- Where every definition refers to definitions made before it alone, and every test is answered with a
-- success or a denial and no blob, `bcexp_eval` of an expression on the definitions below some address ends, with that address as fuel:
-- its code is success or denial as the Boolean expression holds or does not, under any values of the
-- definitions that are those of their expressions; and there are no blobs.
pub bcexp_eval-holds :
    (calls : Calls) (defs : List Bcdef) (answer : ℕ → Bytes → Bool) (value : ℕ → Bool) (n : ℕ)
    (e : Bcexp)
    → Quiet calls defs answer
    → Ordered defs
    → Valued defs answer value
    → Refers defs n e
    → Answered calls answer e
    → bcexp_eval n calls defs e none ≡ ok (verdict (holds answer value e), none)
unfolding bcexp_eval
bcexp_eval-holds calls defs answer value n e quiet ordered valued refs ans =
    eval_at-holds n calls defs answer value (deref n calls defs) n
      (deref-holds calls defs answer value quiet ordered valued n) e refs ans
