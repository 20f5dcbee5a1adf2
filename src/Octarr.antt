-- ===== src/Octarr.antt =====
-- lib/octarr.c: arrays of octet strings that grow, used as queues. An array is its allocated size and
-- the octets of its `n` elements; `none` is a null `octarr_t *`. An operation on an `Octarr`
-- is the code behind its test for a null pointer, on which it returns at once. Memory is never short.
pub mod Laws
use spocp.Prelude.{
  ℕ, zero, suc, ◌+◌, ◌*◌, ◌-◌, ◌<◌, ◌≤◌, Bytes, List, [], ◌∷◌, ◌++◌, Option, none, some, Bool, true,
  false, ltb, ◌==◌, if◌then◌else◌, length, Result, ok, err, fault, unfinished, ◌>>=◌, ◌≡◌, refl,
  arith, length-append, Bool-cases, inl, inr, append-nil, append_assoc, ◌∙◌, ap,
}

pub record Octarr : Type 0 where
  pub size : ℕ
  pub arr : List Bytes

unfoldable pub octarr_new : ℕ → Octarr
octarr_new n = record { size = n; arr = [] }

-- The array with room for one more: an array of size 0 is allocated, and its `n` set to 0.
make_room : Octarr → Octarr
make_room oa =
    if oa.size == 0
    then record { size = 2; arr = [] }
    else if length oa.arr == oa.size
    then record { size = oa.size * 2; arr = oa.arr }
    else oa

-- The store at `n`, which is outside the array if it is full.
store : Octarr → Bytes → Result Octarr
store oa op =
    if ltb (length oa.arr) oa.size
    then ok (record { size = oa.size; arr = oa.arr ++ (op ∷ []) })
    else fault

unfoldable pub octarr_add : Option Octarr → Bytes → Result Octarr
unfolding octarr_new make_room store
octarr_add none op = store (make_room (octarr_new 4)) op
octarr_add (some oa) op = store (make_room oa) op

-- Every element is duplicated, into an array of the same size.
unfoldable pub octarr_dup : Octarr → Octarr
octarr_dup old = record { size = old.size; arr = old.arr }

-- More room, and never less.
unfoldable pub octarr_mr : Octarr → ℕ → Octarr
octarr_mr oa n =
    if oa.size == 0
    then record { size = n; arr = [] }
    else if ltb oa.size n
    then record { size = n; arr = oa.arr }
    else oa

-- The first element, and the array without it.
unfoldable pub octarr_pop : Octarr → Octarr × Option Bytes
octarr_pop oa = elim oa.arr [
  | [] ↦ (oa, none)
  | x ∷ l ↦ (record { size = oa.size; arr = l }, some x)
]

unfoldable pub rpop_from : Bytes → List Bytes → List Bytes × Bytes
rpop_from x [] = ([], x)
rpop_from x (y ∷ l) = let (r, z) = rpop_from y l in (x ∷ r, z)

-- The last element, and the array without it.
unfoldable pub octarr_rpop : Octarr → Octarr × Option Bytes
unfolding rpop_from
octarr_rpop oa = elim oa.arr [
  | [] ↦ (oa, none)
  | x ∷ l ↦ (let (r, z) = rpop_from x l in (record { size = oa.size; arr = r }, some z))
]

-- The loop of `octarr_join`: the elements are popped from the source and added one by one.
unfoldable pub join_loop : Octarr → List Bytes → Result Octarr
join_loop target [] = ok target
join_loop target (o ∷ source) = octarr_add (some target) o >>= λ t. join_loop t source

-- Two different arrays.
unfoldable pub octarr_join : Option Octarr → Option Octarr → Result (Option Octarr)
unfolding join_loop
octarr_join none source = ok source
octarr_join (some target) none = ok (some target)
octarr_join (some target) (some source) = join_loop target source.arr >>= λ t. ok (some t)

-- The elements without the one at `n`; none if there is none at `n`.
unfoldable pub take_out : List Bytes → ℕ → Option (List Bytes × Bytes)
take_out [] n = none
take_out (x ∷ l) zero = some (l, x)
take_out (x ∷ l) (suc n) = elim (take_out l n) [ none ↦ none | some p ↦ some (x ∷ p.0, p.1) ]

-- An `n` that is not negative. The test lets `n` through when it is the number of elements, and then
-- reads a cell that holds none.
unfoldable pub octarr_rm : Octarr → ℕ → Result (Octarr × Option Bytes)
unfolding take_out
octarr_rm oa n = if ltb (length oa.arr) n then ok (oa, none) else elim (take_out oa.arr n) [
  | none ↦ fault
  | some p ↦ ok (record { size = oa.size; arr = p.0 }, some p.1)
]
