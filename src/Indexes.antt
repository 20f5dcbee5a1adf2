-- ===== src/Indexes.antt =====
-- lib/index.c: the arrays of rule instances that a junction or a result holds. A rule instance is its
-- address, 0 for null; an array is its allocated size and the `n` addresses in it, and `none` is a null
-- `spocp_index_t *`. Sizes do not wrap around, and memory is never short.
pub mod Extended
pub mod Common
pub mod Removed
use spocp.Prelude.{
  ℕ, suc, ◌+◌, ◌*◌, List, [], ◌∷◌, ◌++◌, Option, none, some, Bool, true, false, ltb, ◌==◌,
  if◌then◌else◌, length, Result, ok, fault, ◌>>=◌,
}

pub record Index : Type 0 where
  pub size : ℕ
  pub arr : List ℕ

unfoldable pub index_new : ℕ → Index
index_new size = record { size = size; arr = [] }

-- The rule instances of a copy, looked up by `search` in the rules of the copy if these are given:
-- `rdb_search` for the identity of each.
unfoldable pub dup_all : Option (ℕ → ℕ) → List ℕ → List ℕ
dup_all search [] = []
dup_all search (x ∷ l) = elim search [ none ↦ x | some s ↦ s x ] ∷ dup_all search l

unfoldable pub index_dup : Index → Option (ℕ → ℕ) → Index
unfolding dup_all
index_dup id search = record { size = id.size; arr = dup_all search id.arr }

-- A store at `n`, which is outside the array if it is full.
unfoldable pub put : Index → ℕ → Result Index
put id ri =
    if ltb (length id.arr) id.size
    then ok (record { size = id.size; arr = id.arr ++ (ri ∷ []) })
    else fault

-- A full array is doubled; one of size 0 stays at size 0.
unfoldable pub doubled : Index → Index
doubled id = if length id.arr == id.size then record { size = id.size * 2; arr = id.arr } else id

unfoldable pub index_add : Option Index → ℕ → Result (Option Index)
unfolding index_new put doubled
index_add id ri =
    if ri == 0
    then ok id
    else (put (doubled (elim id [ none ↦ index_new 2 | some i ↦ i ])) ri >>= λ i. ok (some i))

-- The loop of `index_rm`: behind an instance that is taken out the next one is not looked at, and the
-- index `i` differs from `n` at the end if the last instance was taken out.
unfoldable pub rm_loop : List ℕ → ℕ → List ℕ × Bool
rm_loop [] ri = ([], false)
rm_loop (x ∷ []) ri = if x == ri then ([], true) else (x ∷ [], false)
rm_loop (x ∷ y ∷ l) ri = elim (x == ri) [
  | true ↦ (let (r, b) = rm_loop l ri in (y ∷ r, b))
  | false ↦ (let (r, b) = rm_loop (y ∷ l) ri in (x ∷ r, b))
]

-- The array, and what is returned.
unfoldable pub index_rm : Index → ℕ → Index × Bool
unfolding rm_loop
index_rm id ri = let (r, b) = rm_loop id.arr ri in (record { size = id.size; arr = r }, b)

-- The inner loop of `index_and`.
unfoldable pub and_inner : ℕ → List ℕ → Index → Result Index
unfolding put
and_inner x [] res = ok res
and_inner x (y ∷ b) res = elim (x == y) [
  | true ↦ put res x >>= λ r. and_inner x b r
  | false ↦ and_inner x b res
]

unfoldable pub and_outer : List ℕ → List ℕ → Index → Result Index
unfolding and_inner
and_outer [] b res = ok res
and_outer (x ∷ a) b res = and_inner x b res >>= λ r. and_outer a b r

-- `MAX`.
unfoldable pub larger : ℕ → ℕ → ℕ
larger a b = if ltb a b then b else a

unfoldable pub index_and : Option Index → Option Index → Result (Option Index)
unfolding and_outer larger index_new
index_and none b = ok none
index_and (some a) none = ok none
index_and (some a) (some b) =
    and_outer a.arr b.arr (index_new (larger (length a.arr) (length b.arr))) >>= λ r.
    if length r.arr == 0 then ok none else ok (some r)

-- The inner loop of `index_extend`: the instance is in the array.
unfoldable pub is_in : ℕ → List ℕ → Bool
is_in v [] = false
is_in v (x ∷ l) = if x == v then true else is_in v l

unfoldable pub extend_loop : List ℕ → Index → Result Index
unfolding is_in index_add
extend_loop [] a = ok a
extend_loop (x ∷ b) a = elim (is_in x a.arr) [
  | true ↦ extend_loop b a
  | false ↦ index_add (some a) x >>= λ r. elim r [ none ↦ fault | some a' ↦ extend_loop b a' ]
]

-- A null array is read through.
unfoldable pub index_extend : Option Index → Option Index → Result (Option Index)
unfolding extend_loop
index_extend (some a) (some b) = extend_loop b.arr a >>= λ r. ok (some r)
index_extend none (some b) = elim b.arr [ [] ↦ ok none | x ∷ l ↦ fault ]
index_extend a none = fault

-- The stores of the copy stand below `n`, which is at most the size.
unfoldable pub index_cp : Index → Index
index_cp si = record { size = si.size; arr = si.arr }
