-- ===== src/Ressets.antt =====
-- lib/resset.c: the results of a match, a list of arrays of rule instances with their blobs. A null list
-- is empty, and a blob is its address.
pub mod Sets
use spocp.Prelude.{
  ℕ, suc, Bool, false, leb, ◌||◌, if◌then◌else◌, List, [], ◌∷◌, ◌++◌, Option, none, some, Result,
  ok, fault, ◌>>=◌, Code,
}
use spocp.Indexes.{Index, index_cp, index_extend, index_and}

-- `resset_t` without `next`.
pub record Resset : Type 0 where
  pub si : Option Index
  pub blob : Option ℕ

-- The array is copied.
unfoldable pub resset_new : Option Index → Option ℕ → Result Resset
resset_new none blob = fault
resset_new (some t) blob = ok (record { si = some (index_cp t); blob = blob })

unfoldable pub resset_add : List Resset → Option Index → Option ℕ → Result (List Resset)
unfolding resset_new
resset_add rs t blob = resset_new t blob >>= λ tail. ok (rs ++ (tail ∷ []))

unfoldable pub resset_join : List Resset → List Resset → List Resset
resset_join [] b = b
resset_join (r ∷ a) b = r ∷ (a ++ b)

-- `resset_free` of the result at a place of the list: it releases that and, through `next`, all that
-- follow it. The places that are released are a function.
unfoldable pub resset_free : (place : ℕ) → (ℕ → Bool) → ℕ → Bool
resset_free place released n = leb place n || released n

-- The loop of `resset_compact` from the result at a place on: `next` and `si` of a result that is
-- released are read outside an object.
unfoldable pub compact_loop :
    (released : ℕ → Bool) → (place : ℕ) → Option Index → List Resset → Result (Option Index)
unfolding resset_free
compact_loop released place si [] = ok si
compact_loop released place si (h ∷ t) =
    if released place
    then fault
    else (index_extend si h.si >>= λ si'.
        compact_loop (resset_free place released) (suc place) si' t)

unfoldable pub resset_compact : List Resset → Result (List Resset)
unfolding compact_loop
resset_compact [] = ok []
resset_compact (r ∷ rest) =
    compact_loop (λ n. false) 1 r.si rest >>= λ si. ok (record { si = si; blob = r.blob } ∷ [])

-- The list that is left of `a`: both are compacted, and the array of `a` is replaced.
and_first : List Resset → List Resset → Result (List Resset)
and_first (a ∷ as') (b ∷ bs) =
    index_and a.si b.si >>= λ si. ok (record { si = si; blob = a.blob } ∷ as')
and_first a b = fault

unfoldable pub resset_and : List Resset → List Resset → Result (List Resset)
unfolding and_first
resset_and [] b = ok []
resset_and (a ∷ as') [] = ok []
resset_and (a ∷ as') (b ∷ bs) =
    resset_compact (a ∷ as') >>= λ c. resset_compact (b ∷ bs) >>= λ d. and_first c d

-- `qresult_t` without `next`.
pub record Qresult : Type 0 where
  pub rc : Code
  pub part : List Resset

unfoldable pub qresult_new : Code → List Resset → List Qresult
qresult_new rc rs = record { rc = rc; part = rs } ∷ []

unfoldable pub qresult_add : List Qresult → Code → List Resset → List Qresult
unfolding qresult_new
qresult_add res rc rs = res ++ qresult_new rc rs

-- The last of the first list is returned, with the second behind it.
unfoldable pub qresult_join : List Qresult → List Qresult → List Qresult
qresult_join [] b = b
qresult_join (q ∷ []) b = q ∷ b
qresult_join (q ∷ r ∷ a) b = qresult_join (r ∷ a) b
