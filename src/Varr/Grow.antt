-- ===== src/Varr/Grow.antt =====
-- lib/varr.c: adding to an array and taking from its end.
use spocp.Prelude.{
  ℕ, ◌+◌, ◌*◌, ◌<◌, ◌≤◌, List, [], ◌∷◌, ◌++◌, Option, none, some, true, ltb, ◌==◌, Bool-cases,
  Result, ok, ◌≡◌, refl, arith, inl, inr,
}
use spocp.Varr.{Varr, count, items, varr_new, store, grown, varr_add, varr_pop, pop_from, unsnoc}

-- There is room for a pointer at least, and for those that are in the array.
pub record IsVarr (va : Varr) : Type 0 where
  pub some_room : 0 < va.size
  pub fits : count va.arr ≤ va.size

abbrev pub IsVarrOrNull : Option Varr → Type 0
IsVarrOrNull none = Unit
IsVarrOrNull (some va) = IsVarr va

pub count-append : (a b : List ℕ) → count (a ++ b) ≡ count a + count b
count-append [] b = omega arith
count-append (x ∷ a) b = omega (arith, count-append a b)

-- The array after a pointer was added to the list.
abbrev pub Added : List ℕ → ℕ → Result Varr → Type 0
Added l v r = (va' : Varr) × (r ≡ ok va') × IsVarr va' × (va'.arr ≡ l ++ (v ∷ []))

store-Added :
    (va : Varr) (v : ℕ) → 0 < va.size → count va.arr < va.size → Added va.arr v (store va v)
unfolding store
store-Added va v room free =
    let full : ltb (count va.arr) va.size ≡ true = ground arith in
    (
      record { size = va.size; arr = va.arr ++ (v ∷ []) },
      rw full refl,
      record { some_room = room; fits = omega (arith, count-append va.arr (v ∷ [])) },
      refl,
    )

-- Adding a pointer to a well-formed array, or to none, always finds room: the result is well formed,
-- and its pointers are those before with the new one at the end.
pub varr_add-Added :
    (va : Option Varr) (v : ℕ) → IsVarrOrNull va → Added (items va) v (varr_add va v)
unfolding varr_add grown varr_new
varr_add-Added none v h = store-Added (varr_new 4) v (omega arith) (omega arith)
varr_add-Added (some va) v h = elim (Bool-cases (count va.arr == va.size)) [
  | inl full ↦ rw full (
      store-Added (record { size = va.size * 2; arr = va.arr }) v (ground (arith, h.some_room))
        (ground (arith, full, h.some_room)))
  | inr free ↦ rw free (store-Added va v h.some_room (ground (arith, free, h.fits)))
]

unsnoc-snoc : (x : ℕ) (l : List ℕ) (v : ℕ) → unsnoc x (l ++ (v ∷ [])) ≡ (x ∷ l, v)
unfolding unsnoc
unsnoc-snoc x [] v = refl
unsnoc-snoc x (y ∷ l) v = rw (unsnoc-snoc y l v) refl

pub pop_from-snoc : (l : List ℕ) (v : ℕ) → pop_from (l ++ (v ∷ [])) ≡ (l, v)
unfolding pop_from unsnoc
pop_from-snoc [] v = refl
pop_from-snoc (x ∷ l) v = unsnoc-snoc x l v

-- What `varr_add` adds to a well-formed array, `varr_pop` returns, and the pointers are as before.
pub varr_pop-varr_add :
    (va : Varr) (v : ℕ)
    → IsVarr va
    → (va' : Varr) × (varr_add (some va) v ≡ ok va')
      × ((varr_pop va').1 ≡ v)
      × ((varr_pop va').0.arr ≡ va.arr)
unfolding varr_pop
varr_pop-varr_add va v h =
    let (va', e, wf, l) = varr_add-Added (some va) v h in
    (va', e, rw (l, pop_from-snoc va.arr v) refl, rw (l, pop_from-snoc va.arr v) refl)
