-- ===== src/Bcond/Endless.antt =====
-- lib/bcond.c: the conjunction of conditions whose tests return dynamic blobs.
use spocp.Bcond.{Bcexp, Bcexps, cons, Bcdef, spec, and, or, not, ref}
use spocp.Bcond.Eval.{
  Calls, bcond_eval, blob_of, negate, or_loop, is_success, join_itself, gather, hand_over, eval_at,
  and_loop, deref, bcexp_eval,
}
use spocp.Octarr.{Octarr, octarr_join}
use spocp.Octarr.Laws.{IsOctarr, octarr_add-Extended, octarr_join-append}
use spocp.Prelude.{
  ℕ, zero, suc, Bytes, List, [], ◌∷◌, ◌++◌, Option, none, some, if◌then◌else◌, Result, Code, ok,
  fault, unfinished, err, length, arith, ◌≤◌, Bool-cases, inl, inr, success, denied, ◌>>=◌, ◌≡◌,
  ◌≢◌, refl, sym, subst, ◌∙◌,
}

-- The octets stay octets when the first becomes the last.
turned : (o : Bytes) (l : List Bytes) → l ++ (o ∷ []) ≢ []
turned o [] e = cc
turned o (x ∷ l) e = cc

-- However often the loop runs, an octet string is left to be moved.
endless :
    (fuel size : ℕ) (l : List Bytes)
    → length l ≤ size
    → l ≢ []
    → join_itself fuel (record { size = size; arr = l }) ≡ unfinished
unfolding join_itself
endless zero size l h some_octets = refl
endless (suc fuel) size [] h some_octets = absurd (some_octets refl)
endless (suc fuel) size (o ∷ l) h some_octets =
    let (oa, added, h', e) =
      octarr_add-Extended (record { size = size; arr = l }) o (omega (arith, h)) in
    rw added (endless fuel oa.size oa.arr h' (λ none_left. turned o l (sym e ∙ none_left)))

-- An array with octets, and no more than were allocated.
abbrev pub Filled : Octarr → Type 0
Filled oa = IsOctarr oa × (oa.arr ≢ [])

-- What an evaluation leaves in an array with octets that it was given.
abbrev Kept : Result (Code × Option Octarr) → Type 0
Kept (ok (r, oa)) = (b : Octarr) × (oa ≡ some b) × Filled b
Kept _ = Unit

empty_first : (l m : List Bytes) → l ++ m ≡ [] → l ≡ []
empty_first [] m e = refl
empty_first (x ∷ l) m e = cc

hand_over-Kept :
    (r : Code) (lo : Option Octarr) (b : Octarr) → Filled b → Kept (hand_over r lo (some b))
unfolding hand_over
hand_over-Kept r none b h = (b, refl, h)
hand_over-Kept r (some lo) b h = elim (Bool-cases (is_success r)) [
  | inl s ↦ rw s (joined lo)
  | inr n ↦ rw n (b, refl, h)
]
  where
    joined : (lo : Octarr) → Kept (octarr_join (some b) (some lo) >>= λ l. ok (r, l))
    joined lo =
        let (t, e, fits, arr) = octarr_join-append b lo h.0 in
        rw e (t, refl, (fits, λ none_left. h.1 (empty_first b.arr lo.arr (sym arr ∙ none_left))))

module _ {A : Type 0} (m : Result A) (r : A → Code) (lo : A → Option Octarr) (b : Octarr)
    (h : Filled b) where
  Kept-bind : Kept (m >>= λ x. hand_over (r x) (lo x) (some b))
  Kept-bind = by_result m
    where
      by_result : (m : Result A) → Kept (m >>= λ x. hand_over (r x) (lo x) (some b))
      by_result (ok x) = hand_over-Kept (r x) (lo x) b h
      by_result (err c) = tt
      by_result fault = tt
      by_result unfinished = tt

eval_at-Kept :
    (fuel : ℕ) (calls : Calls) (f : ℕ → Option Octarr → Result (Code × Option Octarr)) (e : Bcexp)
    (b : Octarr)
    → Filled b
    → Kept (eval_at fuel calls f e (some b))
unfolding eval_at
eval_at-Kept fuel calls f (spec plugin name s) b h = of_test (bcond_eval calls plugin s)
  where
    of_test :
        (m : Result (Code × Bytes))
        → Kept (m >>= λ x. blob_of x.0 x.1 >>= λ lo. hand_over x.0 lo (some b))
    of_test (ok x) = Kept-bind (blob_of x.0 x.1) (λ lo. x.0) (λ lo. lo) b h
    of_test (err c) = tt
    of_test fault = tt
    of_test unfinished = tt
eval_at-Kept fuel calls f (not e) b h =
    Kept-bind (eval_at fuel calls f e none) (λ x. negate x.0)
      (λ x. if is_success x.0 then none else x.1) b h
eval_at-Kept fuel calls f (and arr) b h =
    Kept-bind (and_loop fuel calls f arr none) (λ x. x.0) (λ x. x.1) b h
eval_at-Kept fuel calls f (or arr) b h =
    Kept-bind (or_loop fuel calls f denied arr none) (λ x. x.0) (λ x. x.1) b h
eval_at-Kept fuel calls f (ref self target) b h =
    Kept-bind (f target none) (λ x. x.0) (λ x. x.1) b h

-- A conjunction of which the first part succeeds with a blob, and the second succeeds behind it, with a
-- blob or without, never ends: whatever the fuel, it runs out.
pub bcexp_eval-endless :
    (fuel : ℕ) (calls : Calls) (defs : List Bcdef) (e e' : Bcexp) (arr : Bcexps) (b : Octarr)
    (oa oa' : Option Octarr)
    → Filled b
    → bcexp_eval fuel calls defs e none ≡ ok (success, some b)
    → bcexp_eval fuel calls defs e' (some b) ≡ ok (success, oa')
    → bcexp_eval fuel calls defs (and (cons e (cons e' arr))) oa ≡ unfinished
unfolding bcexp_eval eval_at gather octarr_join
bcexp_eval-endless fuel calls defs e e' arr b oa oa' h first second =
    let (b', same, h') =
      subst Kept second (eval_at-Kept fuel calls (deref fuel calls defs) e' b h) in
    rw (first, second, same, endless fuel b'.size b'.arr h'.0 h'.1) refl
