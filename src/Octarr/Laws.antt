-- ===== src/Octarr/Laws.antt =====
-- lib/octarr.c: adding, joining and removing.
use spocp.Octarr.{Octarr, make_room, store, octarr_add, join_loop, octarr_join, take_out, octarr_rm}
use spocp.Prelude.{
  ℕ, ◌*◌, ◌<◌, ◌≤◌, Bytes, List, [], ◌∷◌, ◌++◌, none, some, true, false, ltb, ◌==◌, length, Result,
  ok, fault, ◌≡◌, refl, sym, arith, length-append, Bool-cases, inl, inr, append-nil, append_assoc,
  ◌∙◌, ap,
}

-- No more elements than were allocated.
abbrev pub IsOctarr : Octarr → Type 0
IsOctarr oa = length oa.arr ≤ oa.size

-- The array after octets were added behind a list of them.
abbrev pub Extended : List Bytes → Result Octarr → Type 0
Extended l r = (oa : Octarr) × (r ≡ ok oa) × IsOctarr oa × (oa.arr ≡ l)

store-Extended :
    (oa : Octarr) (op : Bytes)
    → length oa.arr < oa.size
    → Extended (oa.arr ++ (op ∷ [])) (store oa op)
unfolding store
store-Extended oa op free =
    let room : ltb (length oa.arr) oa.size ≡ true = ground arith in
    (
      record { size = oa.size; arr = oa.arr ++ (op ∷ []) },
      rw room refl,
      omega (arith, length-append oa.arr (op ∷ [])),
      refl,
    )

no_elements : (l : List Bytes) → length l ≡ 0 → l ≡ []
no_elements [] e = refl
no_elements (x ∷ l) e = absurd (omega (arith, e))

add_some :
    (oa : Octarr) (op : Bytes)
    → IsOctarr oa
    → Extended (oa.arr ++ (op ∷ [])) (store (make_room oa) op)
unfolding make_room
add_some oa op h = elim (Bool-cases (oa.size == 0)) [
  | inl z ↦
      let empty : oa.arr ≡ [] = no_elements oa.arr (ground (arith, z, h)) in
      rw (z, empty) (store-Extended (record { size = 2; arr = [] }) op (omega arith))
  | inr some_size ↦ elim (Bool-cases (length oa.arr == oa.size)) [
    | inl full ↦
        rw (some_size, full)
          (store-Extended (record { size = oa.size * 2; arr = oa.arr }) op
            (ground (arith, some_size, full)))
    | inr free ↦ rw (some_size, free) (store-Extended oa op (ground (arith, free, h)))
  ]
]

-- `octarr_add` to an array that has no more elements than were allocated, be its size 0, always finds
-- room; the new octets stand at the end.
pub octarr_add-Extended :
    (oa : Octarr) (op : Bytes)
    → IsOctarr oa
    → Extended (oa.arr ++ (op ∷ [])) (octarr_add (some oa) op)
unfolding octarr_add
octarr_add-Extended oa op h = add_some oa op h

join_loop-Extended :
    (target : Octarr) (source : List Bytes)
    → IsOctarr target
    → Extended (target.arr ++ source) (join_loop target source)
unfolding join_loop
join_loop-Extended target [] h = (target, refl, h, sym (append-nil target.arr))
join_loop-Extended target (o ∷ source) h =
    let (t, added, wf, l) = octarr_add-Extended target o h in
    let (t', joined, wf', l') = join_loop-Extended t source wf in
    (
      t',
      rw added joined,
      wf',
      l' ∙ ap (λ m. m ++ source) l ∙ append_assoc target.arr (o ∷ []) source,
    )

-- `octarr_join` of two different arrays, the first with no more elements than were allocated, finds
-- room for all: the result has the elements of the first and behind them those of the second, both
-- in their order.
pub octarr_join-append :
    (target source : Octarr)
    → IsOctarr target
    → (t : Octarr) × (octarr_join (some target) (some source) ≡ ok (some t))
      × IsOctarr t
      × (t.arr ≡ target.arr ++ source.arr)
unfolding octarr_join
octarr_join-append target source h =
    let (t, e, wf, l) = join_loop-Extended target source.arr h in (t, rw e refl, wf, l)

take_out_at :
    (before : List Bytes) (x : Bytes) (after : List Bytes)
    → take_out (before ++ (x ∷ after)) (length before) ≡ some (before ++ after, x)
unfolding take_out
take_out_at [] x after = refl
take_out_at (y ∷ before) x after = rw (take_out_at before x after) refl

take_out_behind : (l : List Bytes) → take_out l (length l) ≡ none
unfolding take_out
take_out_behind [] = refl
take_out_behind (x ∷ l) = rw (take_out_behind l) refl

-- `octarr_rm` takes out the element at its index and returns it; the others stay in their order.
pub octarr_rm_at :
    (size : ℕ) (before : List Bytes) (x : Bytes) (after : List Bytes)
    → octarr_rm (record { size = size; arr = before ++ (x ∷ after) }) (length before)
      ≡ ok (record { size = size; arr = before ++ after }, some x)
unfolding octarr_rm
octarr_rm_at size before x after =
    let inside : ltb (length (before ++ (x ∷ after))) (length before) ≡ false =
      ground (arith, length-append before (x ∷ after)) in
    rw (inside, take_out_at before x after) refl

-- Behind the last element `octarr_rm` returns null and changes nothing, but only from the second index
-- on: at the first one, which is the number of elements, it reads a cell without an element.
pub octarr_rm_outside :
    (oa : Octarr) (n : ℕ)
    → length oa.arr < n
    → (octarr_rm oa n ≡ ok (oa, none)) × (octarr_rm oa (length oa.arr) ≡ fault)
unfolding octarr_rm
octarr_rm_outside oa n far =
    let past : ltb (length oa.arr) n ≡ true = ground arith in
    let at : ltb (length oa.arr) (length oa.arr) ≡ false = ground arith in
    (rw past refl, rw (at, take_out_behind oa.arr) refl)
