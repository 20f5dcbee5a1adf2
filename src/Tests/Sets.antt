-- ===== src/Tests/Sets.antt =====
-- Concrete trees and results for the theorems on server/ruleset.c, lib/index.c and lib/resset.c.
use spocp.Indexes.Removed.{without, is_last, index_rm-without}
use spocp.Indexes.{Index, index_rm}
use spocp.Octarr.{Octarr}
use spocp.Prelude.{
  ◌+◌, [], ◌∷◌, ◌++◌, codes, none, some, length, ok, ◌≡◌, refl, ◌↔◌, inl, inr, arith,
}
use spocp.Ressets.Sets.{IsResset, Meets, resset_and-Meets}
use spocp.Ressets.{Resset, resset_and}
use spocp.Rulesets.Created.{Begins, Made, create_loop-Made}
use spocp.Rulesets.Find.{Name, find_loop, create_loop, beginning_of}
use spocp.Rulesets.Levels.{Member, one_level-Member}
use spocp.Rulesets.Names.{pathname_get}
use spocp.Octet.Chars.{is_dirchar}
use spocp.Rulesets.Path.{path_split}
use spocp.Rulesets.Printed.{spell, slash_run, words, path_split-spell, path_split-pathname_get}
use spocp.Rulesets.RoundTrip.{Remade, ruleset_find-ruleset_create}
use spocp.Rulesets.{Level, null, level, end, item, one_level}

abbrev root : Level
root = level end (record { self = 1; name = [] }) null end

-- A path, and the rule behind it.
abbrev asked : Name
asked = record { len = 5; val = codes "/a/b(" }

ruleset_find-ruleset_create_example : Remade asked root 2
unfolding is_dirchar beginning_of
ruleset_find-ruleset_create_example =
    ruleset_find-ruleset_create asked root 2 (refl, tt, tt) (inr (inr (inr (inr (inl refl)))))
      (inl refl)

create_loop-Made_example :
    Made
      (Begins (codes "a" ∷ []) (codes "a" ∷ codes "b" ∷ []))
      (find_loop (codes "a" ∷ []) (record { self = 1; name = [] }, null))
      (find_loop
        (codes "a" ∷ [])
        (record { self = 1; name = [] }, (create_loop (codes "a" ∷ codes "b" ∷ []) null 2).0))
create_loop-Made_example =
    create_loop-Made (codes "a" ∷ codes "b" ∷ []) (codes "a" ∷ []) (record { self = 1; name = [] })
      null 2 ((λ e. cc), ((λ e. cc), tt)) tt

-- Entered at the name in the middle.
abbrev three : Level
three =
    level (item (record { self = 3; name = codes "c" }) null end)
      (record { self = 2; name = codes "b" }) null
      (item (record { self = 4; name = codes "a" }) null end)

one_level-Member_example :
    (one_level (codes "a") three ≡ some (record { self = 4; name = codes "a" }, null))
    ↔ (Member (record { self = 4; name = codes "a" }, null) three × (codes "a" ≡ codes "a"))
one_level-Member_example =
    one_level-Member (codes "a") three (record { self = 4; name = codes "a" }, null)
      ((λ e. cc), tt, (inl (omega arith), tt, tt), ((λ e. cc), inl (omega arith), tt, tt))

path_split-spell_example :
    (oa : Octarr) × (path_split
        (slash_run 1 ++ (spell ((codes "a", 2) ∷ (codes "b", 0) ∷ []) ++ codes "("))
      ≡ ok (some oa, 1 + length (spell ((codes "a", 2) ∷ (codes "b", 0) ∷ []))))
    × (oa.arr ≡ words ((codes "a", 2) ∷ (codes "b", 0) ∷ []))
unfolding is_dirchar
path_split-spell_example =
    path_split-spell 1 (codes "a", 2) ((codes "b", 0) ∷ []) b'(' []
      (((λ e. cc), (refl, tt)), inr (omega arith), (((λ e. cc), (refl, tt)), inl refl, tt)) refl

path_split-pathname_get_example :
    (oa : Octarr) × (path_split (codes "/b/a/" ++ (0 ∷ [])) ≡ ok (some oa, length (codes "/b/a/")))
    × (oa.arr ≡ codes "b" ∷ codes "a" ∷ [])
unfolding is_dirchar pathname_get
path_split-pathname_get_example =
    path_split-pathname_get (codes "b") (codes "a" ∷ []) 10 (codes "/b/a/") []
      (((λ e. cc), (refl, tt)), (((λ e. cc), (refl, tt)), tt)) refl

abbrev one_two : Index
one_two = record { size = 2; arr = 1 ∷ 2 ∷ [] }

abbrev two_three : Index
two_three = record { size = 2; arr = 2 ∷ 3 ∷ [] }

abbrev result : Index → Resset
result i = record { si = some i; blob = none }

one_two-IsResset : IsResset (result one_two)
one_two-IsResset = (
  (omega arith, omega arith),
  ((λ h. elim h [ inl e ↦ absurd (omega (arith, e)) | inr f ↦ f ]), ((λ h. h), tt)),
  λ h. elim h [
    | inl e ↦ absurd (omega (arith, e))
    | inr k ↦ elim k [ inl e ↦ absurd (omega (arith, e)) | inr f ↦ f ]
  ],
)

two_three-IsResset : IsResset (result two_three)
two_three-IsResset = (
  (omega arith, omega arith),
  ((λ h. elim h [ inl e ↦ absurd (omega (arith, e)) | inr f ↦ f ]), ((λ h. h), tt)),
  λ h. elim h [
    | inl e ↦ absurd (omega (arith, e))
    | inr k ↦ elim k [ inl e ↦ absurd (omega (arith, e)) | inr f ↦ f ]
  ],
)

index_rm-without_example :
    index_rm one_two 1 ≡ (record { size = 2; arr = without 1 (1 ∷ 2 ∷ []) }, is_last 1 (1 ∷ 2 ∷ []))
index_rm-without_example = index_rm-without one_two 1 one_two-IsResset.1

resset_and-Meets_example :
    Meets
      (result one_two ∷ result two_three ∷ [])
      (result two_three ∷ [])
      (resset_and (result one_two ∷ result two_three ∷ []) (result two_three ∷ []))
resset_and-Meets_example =
    resset_and-Meets (result one_two ∷ result two_three ∷ []) (result two_three ∷ [])
      (one_two-IsResset, (two_three-IsResset, tt)) (two_three-IsResset, tt) tt tt
