-- ===== src/Ressets/Sets.antt =====
-- lib/resset.c: results as sets of rule instances, under `resset_compact` and `resset_and`.
use spocp.Indexes.{Index, index_extend}
use spocp.Indexes.Extended.{IsIndex, index_extend-Union}
use spocp.Indexes.Common.{list_of, index_and-Both}
use spocp.Prelude.{
  ℕ, List, [], ◌∷◌, Option, none, some, false, Result, ok, fault, All, ◌≡◌, refl, ◌∙◌, ◌⊎◌, ◌↔◌,
  inl, inr,
}
use spocp.Ressets.{Resset, compact_loop, resset_compact, and_first, resset_and}
use spocp.Varr.Members.{Has, NoRepeat}

-- A result has an array of different instances, none of them null.
abbrev pub IsList : Option Index → Type 0
IsList none = ⊥
IsList (some i) = IsIndex i × NoRepeat i.arr × (Has 0 i.arr → ⊥)

abbrev pub IsResset : Resset → Type 0
IsResset r = IsList r.si

-- The instance is in one of the results.
abbrev pub Among : ℕ → List Resset → Type 0
Among v [] = ⊥
Among v (r ∷ rs) = Has v (list_of r.si) ⊎ Among v rs

-- One or two results.
abbrev pub IsShort : List Resset → Type 0
IsShort [] = ⊥
IsShort (r ∷ []) = Unit
IsShort (r ∷ h ∷ []) = Unit
IsShort (r ∷ h ∷ t ∷ ts) = ⊥

-- One array with all the instances.
abbrev Compacts : List Resset → Result (Option Index) → Type 0
Compacts rs res =
    (i : Index) × (res ≡ ok (some i)) × NoRepeat i.arr × ((v : ℕ) → Has v i.arr ↔ Among v rs)

compact_two :
    (a b : Option Index) (c d : Option ℕ)
    → IsList a
    → IsList b
    → Compacts (record { si = a; blob = c } ∷ record { si = b; blob = d } ∷ []) (index_extend a b)
compact_two none b c d h k = absurd h
compact_two (some a) none c d h k = absurd k
compact_two (some a) (some b) c d h k =
    let (i, eq, u) = index_extend-Union a b (h.0) (h.1) (k.2) in
    (
      i,
      eq,
      u.1,
      λ v. (
        λ m. elim ((u.2 v).0 m) [ inl n ↦ inl n | inr n ↦ inr (inl n) ],
        λ m. elim m [
          | inl n ↦ (u.2 v).1 (inl n)
          | inr n ↦ elim n [ inl o ↦ (u.2 v).1 (inr o) | inr f ↦ absurd f ]
        ],
      ),
    )

loop_two :
    (si : Option Index) (h : Resset) (i : Index)
    → index_extend si h.si ≡ ok (some i)
    → compact_loop (λ n. false) 1 si (h ∷ []) ≡ ok (some i)
unfolding compact_loop
loop_two si h i e = rw e refl

compact_loop-Compacts :
    (r : Resset) (rs : List Resset)
    → All IsResset (r ∷ rs)
    → IsShort (r ∷ rs)
    → Compacts (r ∷ rs) (compact_loop (λ n. false) 1 r.si rs)
compact_loop-Compacts r [] h s = unfold compact_loop in alone r.si r.blob h.0
  where
    alone :
        (si : Option Index) (blob : Option ℕ)
        → IsList si
        → Compacts (record { si = si; blob = blob } ∷ []) (ok si)
    alone none blob k = absurd k
    alone (some i) blob k =
        (i, refl, k.1, λ v. (λ m. inl m, λ m. elim m [ inl n ↦ n | inr f ↦ absurd f ]))
compact_loop-Compacts r (h ∷ []) all s =
    let (i, eq, once, has) = compact_two r.si h.si r.blob h.blob all.0 all.1.0 in
    (i, loop_two r.si h i eq, once, has)
compact_loop-Compacts r (h ∷ t ∷ ts) all s = absurd s

-- `resset_compact` of one or two results returns one, with the first blob and all their instances.
resset_compact-Compacts :
    (r : Resset) (rs : List Resset)
    → All IsResset (r ∷ rs)
    → IsShort (r ∷ rs)
    → (i : Index) × (resset_compact (r ∷ rs) ≡ ok (record { si = some i; blob = r.blob } ∷ []))
      × NoRepeat i.arr
      × ((v : ℕ) → Has v i.arr ↔ Among v (r ∷ rs))
unfolding resset_compact
resset_compact-Compacts r rs h s =
    let (i, eq, once, has) = compact_loop-Compacts r rs h s in (i, rw eq refl, once, has)

-- `resset_compact` of three results or more, the first two with different rule instances, goes on at a
-- result that it has released.
pub resset_compact_three :
    (r h t : Resset) (ts : List Resset)
    → IsResset r
    → IsResset h
    → resset_compact (r ∷ h ∷ t ∷ ts) ≡ fault
unfolding resset_compact compact_loop
resset_compact_three r h t ts valid valid' =
    let (i, eq, _, _) = compact_two r.si h.si r.blob h.blob valid valid' in rw eq refl

-- The instances of two results.
abbrev pub Meets : List Resset → List Resset → Result (List Resset) → Type 0
Meets a b res =
    (r : Resset) × (res ≡ ok (r ∷ [])) × ((v : ℕ) → Has v (list_of r.si) ↔ (Among v a × Among v b))

and_compacted :
    (a b : Resset) (as' bs c d : List Resset)
    → resset_compact (a ∷ as') ≡ ok c
    → resset_compact (b ∷ bs) ≡ ok d
    → resset_and (a ∷ as') (b ∷ bs) ≡ and_first c d
unfolding resset_and
and_compacted a b as' bs c d e f = rw (e, f) refl

-- `resset_and` of one or two results with one or two others returns one result, with the instances that
-- both have.
pub resset_and-Meets :
    (a b : List Resset)
    → All IsResset a
    → All IsResset b
    → IsShort a
    → IsShort b
    → Meets a b (resset_and a b)
resset_and-Meets [] b h k s t = absurd s
resset_and-Meets (a ∷ as') [] h k s t = absurd t
resset_and-Meets (a ∷ as') (b ∷ bs) h k s t =
    let (i, compacted, once, in_i) = resset_compact-Compacts a as' h s in
    let (j, compacted', once', in_j) = resset_compact-Compacts b bs k t in
    let (si, eq, both) = index_and-Both i j once' in
    (
      record { si = si; blob = a.blob },
      and_compacted a b as' bs _ _ compacted compacted' ∙ unfold and_first in rw eq refl,
      λ v. (
        λ m. let p = (both v).0 m in ((in_i v).0 p.0, (in_j v).0 p.1),
        λ m. (both v).1 ((in_i v).1 m.0, (in_j v).1 m.1),
      ),
    )
