-- ===== src/Bcond/Eval.antt =====
-- lib/bcond.c: the evaluation of a boundary condition (`bcond_eval`, `bcexp_eval`) against a query and
-- a rule, which are fixed. The dynamic blobs are gathered in arrays of octet strings.
use spocp.Bcond.{Bcexp, Bcexps, spec, and, or, not, ref, nil, cons, Bcdef}
use spocp.Octarr.{Octarr, octarr_add, octarr_join}
use spocp.Octet.Search.{octchr}
use spocp.Prelude.{
  ℕ, zero, suc, Bytes, List, [], ◌∷◌, ◌++◌, Option, none, some, Bool, true, false, ◌==◌,
  if◌then◌else◌, length, take, drop, Result, Code, ok, fault, unfinished, success, denied,
  syntax_error, ◌>>=◌, ◌≡◌, ap,
}

-- What an evaluation calls: `element_eval` of lib/element.c on a path and the query, whose element is
-- its address, none for null; and the `test` function of a plug-in, on the elements and the argument,
-- with its code and its dynamic blob.
pub record Calls : Type 0 where
  pub element_eval : Bytes → Option ℕ
  pub test : (plugin : ℕ) → List (Option ℕ) → Bytes → Code × Bytes

-- The loop over the paths in braces: the elements, and what is left. A brace that is not closed has
-- been stepped over.
unfoldable pub paths : ℕ → Calls → List (Option ℕ) → Bytes → Result (List (Option ℕ) × Bytes)
paths zero calls xp s = unfinished
paths (suc fuel) calls xp [] = ok (xp, [])
paths (suc fuel) calls xp (c ∷ s) =
    if c == b'{'
    then elim (octchr s b'}') [
      | none ↦ ok (xp, s)
      | some sl ↦ paths fuel calls (xp ++ (calls.element_eval (take sl s) ∷ [])) (drop (suc sl) s)
    ]
    else ok (xp, c ∷ s)

-- Behind the paths stands a colon; at the end of the octets the byte behind them is read.
ask : Calls → (plugin : ℕ) → List (Option ℕ) → Bytes → Result (Code × Bytes)
ask calls plugin xp [] = fault
ask calls plugin xp (c ∷ s) =
    if c == b':' then ok (calls.test plugin xp s) else ok (syntax_error, [])

-- The code, and the blob, which is empty if there is none.
unfoldable pub bcond_eval : Calls → (plugin : ℕ) → Bytes → Result (Code × Bytes)
unfolding paths ask
bcond_eval calls plugin s = paths (suc (length s)) calls [] s >>= λ x. ask calls plugin x.0 x.1

abbrev pub is_success : Code → Bool
is_success success = true
is_success _ = false

-- `octarr_join` of an array with itself: what is popped is added again.
unfoldable pub join_itself : ℕ → Octarr → Result Octarr
join_itself zero oa = unfinished
join_itself (suc fuel) oa = elim oa.arr [
  | [] ↦ ok oa
  | o ∷ l ↦ octarr_add (some (record { size = oa.size; arr = l })) o >>= join_itself fuel
]

-- `lo = octarr_join(lo, po)` under `and`. From the first blob on, the two are one array.
unfoldable pub gather : ℕ → (lo po : Option Octarr) → Result (Option Octarr)
unfolding join_itself
gather fuel lo none = ok lo
gather fuel none (some po) = octarr_join none (some po)
gather fuel (some lo) (some po) = join_itself fuel po >>= λ l. ok (some l)

-- The end of `bcexp_eval`: the blobs are given to the caller.
unfoldable pub hand_over : Code → (lo oa : Option Octarr) → Result (Code × Option Octarr)
hand_over r none oa = ok (r, oa)
hand_over r (some lo) oa =
    if is_success r then (octarr_join oa (some lo) >>= λ l. ok (r, l)) else ok (r, oa)

-- The blob of a test that succeeds.
unfoldable pub blob_of : Code → Bytes → Result (Option Octarr)
blob_of success (c ∷ blob) = octarr_add none (c ∷ blob) >>= λ l. ok (some l)
blob_of _ _ = ok none

-- A denial is turned into a success, and a success into a denial without blobs.
unfoldable pub negate : Code → Code
negate success = denied
negate denied = success
negate r = r

-- `bcexp_eval` of an expression and its loops over the parts of one; `deref` evaluates the definition
-- at an address, and the fuel is for `join_itself` alone.
unfoldable mutual
  unfolding bcond_eval blob_of gather hand_over negate

  pub eval_at :
      ℕ
      → Calls
      → (deref : ℕ → Option Octarr → Result (Code × Option Octarr)) → Bcexp
      → Option Octarr
      → Result (Code × Option Octarr)
  eval_at fuel calls deref (spec plugin name s) oa =
      bcond_eval calls plugin s >>= λ x. blob_of x.0 x.1 >>= λ lo. hand_over x.0 lo oa
  eval_at fuel calls deref (not single) oa = eval_at fuel calls deref single none >>= λ x.
      hand_over (negate x.0) (if is_success x.0 then none else x.1) oa
  eval_at fuel calls deref (and arr) oa =
      and_loop fuel calls deref arr none >>= λ x. hand_over x.0 x.1 oa
  eval_at fuel calls deref (or arr) oa =
      or_loop fuel calls deref denied arr none >>= λ x. hand_over x.0 x.1 oa
  eval_at fuel calls deref (ref self target) oa = deref target none >>= λ x. hand_over x.0 x.1 oa

  -- With the blobs so far, which each part is given.
  pub and_loop :
      ℕ
      → Calls
      → (ℕ → Option Octarr → Result (Code × Option Octarr))
      → Bcexps
      → Option Octarr
      → Result (Code × Option Octarr)
  and_loop fuel calls deref nil lo = ok (success, lo)
  and_loop fuel calls deref (cons e arr) lo = eval_at fuel calls deref e lo >>= λ x.
      if is_success x.0
      then (gather fuel lo x.1 >>= λ lo'. and_loop fuel calls deref arr lo')
      else ok (x.0, none)

  pub or_loop :
      ℕ
      → Calls
      → (ℕ → Option Octarr → Result (Code × Option Octarr))
      → Code
      → Bcexps
      → Option Octarr
      → Result (Code × Option Octarr)
  or_loop fuel calls deref r nil lo = ok (r, lo)
  or_loop fuel calls deref r (cons e arr) lo = eval_at fuel calls deref e lo >>= λ x.
      if is_success x.0 then ok x else or_loop fuel calls deref x.0 arr x.1

-- The expression of the definition at an address.
unfoldable pub exp_at : List Bcdef → ℕ → Option Bcexp
exp_at [] t = none
exp_at (d ∷ defs) t = if d.address == t then d.exp else exp_at defs t

-- The definition that a reference points to, through as many references as there is fuel.
unfoldable pub deref : ℕ → Calls → List Bcdef → ℕ → Option Octarr → Result (Code × Option Octarr)
unfolding eval_at exp_at
deref zero calls defs t oa = unfinished
deref (suc fuel) calls defs t oa = elim (exp_at defs t) [
  | none ↦ fault
  | some e ↦ eval_at fuel calls (deref fuel calls defs) e oa
]

pub deref_found :
    (fuel : ℕ) (calls : Calls) (defs : List Bcdef) (t : ℕ) (e : Bcexp) (oa : Option Octarr)
    → exp_at defs t ≡ some e
    → deref (suc fuel) calls defs t oa ≡ eval_at fuel calls (deref fuel calls defs) e oa
unfolding deref
deref_found fuel calls defs t e oa found =
    ap (λ o. elim o [ none ↦ fault | some e ↦ eval_at fuel calls (deref fuel calls defs) e oa ])
      found

unfoldable pub bcexp_eval :
    ℕ → Calls → List Bcdef → Bcexp → Option Octarr → Result (Code × Option Octarr)
unfolding eval_at deref
bcexp_eval fuel calls defs e oa = eval_at fuel calls (deref fuel calls defs) e oa
