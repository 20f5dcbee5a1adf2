-- ===== src/Bcond/Check.antt =====
-- lib/check.c and `bcond_check` of lib/bcond.c: which of the rules that match a query has a condition
-- that holds, and what was found out about a rule before.
use spocp.Bcond.{Bcexp, Bcdef}
use spocp.Bcond.Eval.{Calls, is_success, bcexp_eval, exp_at}
use spocp.Octarr.{Octarr, octarr_add}
use spocp.Prelude.{
  ℕ, Bytes, List, [], ◌∷◌, ◌++◌, Option, none, some, Bool, false, ◌==◌, if◌then◌else◌, Result, Code,
  ok, fault, success, denied, ◌>>=◌,
}

-- The parts of a `ruleinst_t` that are read: its address, its static blob, and the address of the
-- definition of its boundary condition.
pub record Ruleinst : Type 0 where
  pub address : ℕ
  pub blob : Option Bytes
  pub bcond : Option ℕ

-- `checked_t`; a list of them is linked.
pub record Checked : Type 0 where
  pub ri : ℕ
  pub rc : Code
  pub blob : Option Bytes

unfoldable pub checked_rule : ℕ → List Checked → Option Checked
checked_rule ri [] = none
checked_rule ri (c ∷ cr) = if c.ri == ri then some c else checked_rule ri cr

-- The code of a rule that was checked, none for -1.
unfoldable pub checked_res : ℕ → List Checked → Option Code
unfolding checked_rule
checked_res ri cr = elim (checked_rule ri cr) [ none ↦ none | some c ↦ some c.rc ]

unfoldable pub add_checked : ℕ → Code → Option Bytes → List Checked → List Checked
add_checked ri rc blob cr = cr ++ (record { ri = ri; rc = rc; blob = blob } ∷ [])

-- `if (blob) *oa = octarr_add(*oa, blob)`.
unfoldable pub add_blob : Option Octarr → Option Bytes → Result (Option Octarr)
add_blob oa none = ok oa
add_blob oa (some blob) = octarr_add oa blob >>= λ l. ok (some l)

-- The first of the blobs that a condition has gathered.
first_blob : Option Octarr → Result (Option Bytes)
first_blob none = ok none
first_blob (some loa) = elim loa.arr [ [] ↦ fault | blob ∷ l ↦ ok (some blob) ]

-- The expression of a boundary condition, whose first blob is added to those of the caller.
unfoldable pub evaluated :
    (fuel : ℕ)
    → Calls
    → List Bcdef
    → Option Octarr
    → Option Bcexp
    → Result (Code × Option Bytes × Option Octarr)
unfolding add_blob first_blob
evaluated fuel calls defs oa none = fault
evaluated fuel calls defs oa (some e) = bcexp_eval fuel calls defs e none >>= λ x.
    first_blob x.1 >>= λ blob. add_blob oa blob >>= λ oa'. ok (x.0, blob, oa')

-- A rule with this blob and this boundary condition: the code, the blob, and the caller's blobs.
unfoldable pub judge :
    (fuel : ℕ)
    → Calls
    → List Bcdef
    → Option Bytes
    → Option Octarr
    → Option ℕ
    → Result (Code × Option Bytes × Option Octarr)
unfolding evaluated
judge fuel calls defs blob oa none = ok (success, blob, oa)
judge fuel calls defs blob oa (some d) = evaluated fuel calls defs oa (exp_at defs d)

-- What is known of a rule from an earlier check: its code and the blobs with its blob.
unfoldable pub recall : Option Checked → Code → Option Octarr → Result (Code × Option Octarr)
unfolding add_blob
recall none r oa = ok (r, oa)
recall (some c) r oa = add_blob oa c.blob >>= λ oa'. ok (c.rc, oa')

unfoldable pub known_success : Option Checked → Bool
known_success none = false
known_success (some c) = is_success c.rc

-- The loop over the rules, with the code of the one before. A rule that was checked and whose code is
-- no success is evaluated again.
unfoldable pub bcond_check_from :
    (fuel : ℕ)
    → Calls
    → List Bcdef
    → Code
    → List Ruleinst
    → Option Octarr
    → List Checked
    → Result (Code × Option Octarr × List Checked)
unfolding judge recall known_success add_checked add_blob checked_rule
bcond_check_from fuel calls defs r [] oa cr = ok (r, oa, cr)
bcond_check_from fuel calls defs r (ri ∷ id) oa cr =
    let c = checked_rule ri.address cr in
    recall c r oa >>= λ known.
    if known_success c
    then ok (known.0, known.1, cr)
    else (judge fuel calls defs ri.blob known.1 ri.bcond >>= λ (rc, blob, oa').
        if is_success rc
        then (add_blob oa' blob >>= λ oa''. ok (rc, oa'', add_checked ri.address rc blob cr))
        else bcond_check_from fuel calls defs rc id oa' cr)

unfoldable pub bcond_check :
    (fuel : ℕ)
    → Calls
    → List Bcdef
    → List Ruleinst
    → Option Octarr
    → List Checked
    → Result (Code × Option Octarr × List Checked)
unfolding bcond_check_from
bcond_check fuel calls defs id oa cr = bcond_check_from fuel calls defs denied id oa cr
