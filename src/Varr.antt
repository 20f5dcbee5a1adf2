-- ===== src/Varr.antt =====
-- lib/varr.c: arrays of pointers that grow, used as lists, stacks, queues and sets. A pointer is its
-- address, 0 for null; an array is its allocated size and the `n` pointers in it. `none` is a null
-- `varr_t *`. An operation on a `Varr` is the code behind its test for a null pointer, on which it
-- returns null at once. Sizes do not wrap around, and memory is never short.
pub mod Grow
pub mod Members
pub mod Sets
pub mod Dups
use spocp.Prelude.{
  ℕ, zero, suc, ◌+◌, ◌*◌, ◌-◌, List, [], ◌∷◌, ◌++◌, Option, none, some, Bool, true, false, ltb, leb,
  ◌==◌, ◌||◌, if◌then◌else◌, Result, ok, err, fault, unfinished, ◌>>=◌,
}

pub record Varr : Type 0 where
  pub size : ℕ
  pub arr : List ℕ

-- `n`.
abbrev pub count : List ℕ → ℕ
count [] = 0
count (x ∷ l) = suc (count l)

unfoldable pub varr_new : ℕ → Varr
varr_new n = record { size = n; arr = [] }

-- The store at `n`, which is outside the array if it is full.
store : Varr → ℕ → Result Varr
store va v =
    if ltb (count va.arr) va.size
    then ok (record { size = va.size; arr = va.arr ++ (v ∷ []) })
    else fault

-- A full array is doubled; one of size 0 stays at size 0.
grown : Varr → Varr
grown va = if count va.arr == va.size then record { size = va.size * 2; arr = va.arr } else va

unfoldable pub varr_add : Option Varr → ℕ → Result Varr
unfolding varr_new store grown
varr_add none v = store (varr_new 4) v
varr_add (some va) v = store (grown va) v

-- The index, or none for -1.
unfoldable pub find_in : List ℕ → ℕ → Option ℕ
find_in [] v = none
find_in (x ∷ l) v =
    if x == v then some 0 else elim (find_in l v) [ none ↦ none | some i ↦ some (suc i) ]

abbrev pub items : Option Varr → List ℕ
items none = []
items (some va) = va.arr

unfoldable pub varr_find : Option Varr → ℕ → Option ℕ
unfolding find_in
varr_find va v = find_in (items va) v

-- The pointer behind the first `v`, which is not looked for at the last place.
next_in : List ℕ → ℕ → ℕ
next_in [] v = 0
next_in (x ∷ []) v = 0
next_in (x ∷ y ∷ l) v = if x == v then y else next_in (y ∷ l) v

unfoldable pub varr_next : Option Varr → ℕ → ℕ
unfolding next_in
varr_next va v = if v == 0 then 0 else next_in (items va) v

unfoldable pub varr_first : Option Varr → ℕ
varr_first none = 0
varr_first (some va) = elim va.arr [ [] ↦ 0 | x ∷ l ↦ x ]

-- The last pointer, and those before it.
unfoldable pub unsnoc : ℕ → List ℕ → List ℕ × ℕ
unsnoc x [] = ([], x)
unsnoc x (y ∷ l) = let (r, z) = unsnoc y l in (x ∷ r, z)

unfoldable pub pop_from : List ℕ → List ℕ × ℕ
unfolding unsnoc
pop_from [] = ([], 0)
pop_from (x ∷ l) = unsnoc x l

unfoldable pub varr_pop : Varr → Varr × ℕ
unfolding pop_from
varr_pop va = let (l, x) = pop_from va.arr in (record { size = va.size; arr = l }, x)

unfoldable pub fifo_from : List ℕ → List ℕ × ℕ
fifo_from [] = ([], 0)
fifo_from (x ∷ l) = (l, x)

unfoldable pub varr_fifo_pop : Varr → Varr × ℕ
unfolding fifo_from
varr_fifo_pop va = let (l, x) = fifo_from va.arr in (record { size = va.size; arr = l }, x)

map : (ℕ → ℕ) → List ℕ → List ℕ
map f [] = []
map f (x ∷ l) = f x ∷ map f l

-- `none` for a null `dfunc`.
unfoldable pub varr_dup : Varr → Option (ℕ → ℕ) → Varr
unfolding map
varr_dup old none = old
varr_dup old (some df) = record { size = old.size; arr = map df old.arr }

-- `varr_add` of every pointer in turn.
unfoldable pub add_all : Varr → List ℕ → Result Varr
add_all a [] = ok a
add_all a (x ∷ l) = varr_add (some a) x >>= λ a'. add_all a' l

-- The loop that empties `b` from its end: `n` is the number of pointers left in it.
unfoldable pub take_over : ℕ → Varr → List ℕ → Result Varr
take_over zero a b = ok a
take_over (suc n) a b =
    let (b', v) = pop_from b in
    elim (find_in a.arr v) [
      | none ↦ varr_add (some a) v >>= λ a'. take_over n a' b'
      | some i ↦ take_over n a b'
    ]

-- Two different arrays; the flag is `noninv`.
unfoldable pub varr_or : Option Varr → Option Varr → Bool → Result (Option Varr)
unfolding add_all take_over
varr_or none b noninv = ok b
varr_or (some a) none noninv = ok (some a)
varr_or (some a) (some b) true = add_all a b.arr >>= λ c. ok (some c)
varr_or (some a) (some b) false = take_over (count b.arr) a b.arr >>= λ c. ok (some c)

unfoldable pub first_common_in : List ℕ → List ℕ → ℕ
first_common_in [] b = 0
first_common_in (x ∷ a) b = elim (find_in b x) [ none ↦ first_common_in a b | some i ↦ x ]

unfoldable pub varr_first_common : Option Varr → Option Varr → ℕ
unfolding first_common_in
varr_first_common a b = first_common_in (items a) (items b)

unfoldable pub and_loop : List ℕ → List ℕ → Option Varr → Result (Option Varr)
and_loop [] b res = ok res
and_loop (x ∷ a) b res = elim (find_in b x) [
  | none ↦ and_loop a b res
  | some i ↦ varr_add res x >>= λ r. and_loop a b (some r)
]

unfoldable pub varr_and : Option Varr → Option Varr → Result (Option Varr)
unfolding and_loop
varr_and a b = and_loop (items a) (items b) none

-- `varr_rm`: the array without the first `v`, and whether there was one.
unfoldable pub rm_from : List ℕ → ℕ → List ℕ × Bool
rm_from [] v = ([], false)
rm_from (x ∷ l) v = if x == v then (l, true) else (let (r, t) = rm_from l v in (x ∷ r, t))

unfoldable pub varr_rm : Varr → ℕ → Varr × ℕ
unfolding rm_from
varr_rm va v =
    let (l, t) = rm_from va.arr v in (record { size = va.size; arr = l }, if t then v else 0)

nth_in : List ℕ → ℕ → ℕ
nth_in [] n = 0
nth_in (x ∷ l) zero = x
nth_in (x ∷ l) (suc n) = nth_in l n

-- An `n` that is not negative.
unfoldable pub varr_nth : Option Varr → ℕ → ℕ
unfolding nth_in
varr_nth va n = nth_in (items va) n

abbrev pub varr_len : Option Varr → ℕ
varr_len va = count (items va)

-- The inner loop of `varr_rm_dup`: the first pointer that `cf` finds equal to `vp` is taken out.
unfoldable pub rm_later : (ℕ → ℕ → Bool) → ℕ → List ℕ → Option (List ℕ × ℕ)
rm_later cf vp [] = none
rm_later cf vp (x ∷ l) =
    if cf x vp
    then some (l, x)
    else elim (rm_later cf vp l) [ none ↦ none | some p ↦ some (x ∷ p.0, p.1) ]

-- A pass of the outer loop, up to its restart.
unfoldable pub rm_pass : (ℕ → ℕ → Bool) → List ℕ → Option (List ℕ × ℕ)
unfolding rm_later
rm_pass cf [] = none
rm_pass cf (x ∷ l) = elim (rm_later cf x l) [
  | some p ↦ some (x ∷ p.0, p.1)
  | none ↦ elim (rm_pass cf l) [ none ↦ none | some p ↦ some (x ∷ p.0, p.1) ]
]

-- What is left, and what was freed. Every round takes a pointer out.
unfoldable pub rm_dup_loop : ℕ → (ℕ → ℕ → Bool) → List ℕ → Result (List ℕ × List ℕ)
rm_dup_loop zero cf l = unfinished
rm_dup_loop (suc fuel) cf l = if leb (count l) 1 then ok (l, []) else elim (rm_pass cf l) [
  | none ↦ ok (l, [])
  | some p ↦ rm_dup_loop fuel cf p.0 >>= λ q. ok (q.0, p.1 ∷ q.1)
]

unfoldable pub varr_rm_dup : Varr → (ℕ → ℕ → Bool) → Result (Varr × List ℕ)
unfolding rm_dup_loop
varr_rm_dup va cf = rm_dup_loop (suc (count va.arr)) cf va.arr >>= λ q.
    ok (record { size = va.size; arr = q.0 }, q.1)
