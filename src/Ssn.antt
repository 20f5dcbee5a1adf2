-- ===== src/Ssn.antt =====
-- lib/ssn.c: the trees in which the prefixes (read forward) and suffixes (read backward) of the rules
-- are stored, one byte in a node. A string of C is the bytes before its 0, `c ∷ s` if it is not empty;
-- read backward it is the reversed list. A junction, the place where the stored rules go on, is its
-- address.
pub mod Lookup
pub mod Steps
pub mod Insert
pub mod Inner
pub mod Refine
pub mod Follow
pub mod Delete
use mathlib.Core.List.{reverse}
use spocp.Prelude.{
  ℕ, suc, ◌+◌, ◌-◌, ◌%◌, Bytes, List, [], ◌∷◌, ◌++◌, Option, none, some, Bool, true, false, ◌==◌,
  ltb, if◌then◌else◌, int_mod, Result, ok, err, fault, unfinished, ◌>>=◌,
}

-- `ssn_t`: its byte, its reference counter, the smaller and the larger bytes at the same place, the
-- bytes at the next place, and the junction of a string that ends here.
pub data Ssn : Type 0 where
  null : Ssn
  node : (ch refc : ℕ) (left right down : Ssn) (next : Option ℕ) → Ssn

-- New nodes for the rest of a string; `j` is the new junction.
unfoldable pub chain : ℕ → Bytes → ℕ → Ssn
chain c [] j = node c 1 null null null (some j)
chain c (d ∷ s) j = node c 1 null null (chain d s j) none

-- `if (pssn->next == 0) pssn->next = junc_new()`.
unfoldable pub or_new : Option ℕ → ℕ → ℕ
or_new none j = j
or_new (some i) j = i

-- The string has ended at a node with this counter, and `down` below it: where there is one, the
-- walk has gone down before it sees the end.
unfoldable pub end_at : (ch refc : ℕ) (left right down : Ssn) (next : Option ℕ) → ℕ → ℕ × Ssn
unfolding or_new
end_at ch refc l r null nx j = (or_new nx j, node ch refc l r null (some (or_new nx j)))
end_at ch refc l r (node ch' refc' l' r' d' nx') nx j =
    (or_new nx' j, node ch refc l r (node ch' refc' l' r' d' (some (or_new nx' j))) nx)

-- A node whose left, right or lower tree was replaced by the one that a call returned.
unfoldable pub with_left :
    (ch refc : ℕ) (left right down : Ssn) (next : Option ℕ) → ℕ × Ssn → ℕ × Ssn
with_left ch refc l r d nx (i, t) = (i, node ch refc t r d nx)

unfoldable pub with_right :
    (ch refc : ℕ) (left right down : Ssn) (next : Option ℕ) → ℕ × Ssn → ℕ × Ssn
with_right ch refc l r d nx (i, t) = (i, node ch refc l t d nx)

unfoldable pub with_down :
    (ch refc : ℕ) (left right down : Ssn) (next : Option ℕ) → ℕ × Ssn → ℕ × Ssn
with_down ch refc l r d nx (i, t) = (i, node ch refc l r t nx)

-- `ssn_insert_forward`: the junction returned, and the tree. The counters do not wrap around.
unfoldable pub insert_forward : Ssn → ℕ → Bytes → ℕ → ℕ × Ssn
unfolding chain end_at with_left with_right with_down
insert_forward null c s j = (j, chain c s j)
insert_forward (node ch refc l r d nx) c s j =
    if c == ch
    then elim s [
      | [] ↦ end_at ch (suc refc) l r d nx j
      | e ∷ s' ↦ with_down ch (suc refc) l r d nx (insert_forward d e s' j)
    ]
    else if ltb c ch
    then with_left ch refc l r d nx (insert_forward l c s j)
    else with_right ch refc l r d nx (insert_forward r c s j)

-- `ssn_insert_backward`, on the reversed string. Its walk looks for a 0 at the start of the string,
-- where there is none: a string that ends inside the tree is read beyond its first byte.
unfoldable pub insert_backward : Ssn → ℕ → Bytes → ℕ → Result (ℕ × Ssn)
unfolding chain with_left with_right with_down
insert_backward null c s j = ok (j, chain c s j)
insert_backward (node ch refc l r d nx) c s j =
    if c == ch
    then elim s [
      | [] ↦ fault
      | e ∷ s' ↦ insert_backward d e s' j >>= λ x. ok (with_down ch (suc refc) l r d nx x)
    ]
    else if ltb c ch
    then (insert_backward l c s j >>= λ x. ok (with_left ch refc l r d nx x))
    else (insert_backward r c s j >>= λ x. ok (with_right ch refc l r d nx x))

pub data Direction : Type 0 where
  forward backward : Direction

-- `&str[strlen(str) - 1]` of the empty string, and the step over the 0 of one, are outside it.
unfoldable pub ssn_insert : Ssn → Bytes → Direction → ℕ → Result (ℕ × Ssn)
unfolding insert_forward insert_backward
ssn_insert top [] direction j = fault
ssn_insert top (c ∷ s) forward j = ok (insert_forward top c s j)
ssn_insert top (c ∷ s) backward j = elim (reverse (c ∷ s)) [
  | [] ↦ fault
  | d ∷ t ↦ insert_backward top d t j
]

-- `varr_junc_add` of the junction of a node, if it has one.
unfoldable pub junctions : Option ℕ → List ℕ
junctions none = []
junctions (some j) = j ∷ []

-- The walk of `ssn_match`: the junctions in the order in which they are met.
unfoldable pub match_from : Ssn → ℕ → Bytes → List ℕ
unfolding junctions
match_from null c s = []
match_from (node ch refc l r d nx) c s =
    if c == ch
    then junctions nx ++ elim s [ [] ↦ [] | e ∷ s' ↦ match_from d e s' ]
    else if ltb c ch
    then match_from l c s
    else match_from r c s

in_direction : Bytes → Direction → Bytes
in_direction s forward = s
in_direction s backward = reverse s

unfoldable pub ssn_match : Ssn → Bytes → Direction → List ℕ
unfolding match_from in_direction
ssn_match t sp direction = elim (in_direction sp direction) [ [] ↦ [] | c ∷ s ↦ match_from t c s ]

-- `get_rec_all_ssn_followers`: every junction of a tree.
unfoldable pub get_rec_all_ssn_followers : Ssn → List ℕ
unfolding junctions
get_rec_all_ssn_followers null = []
get_rec_all_ssn_followers (node ch refc l r d nx) =
    junctions nx
    ++ (get_rec_all_ssn_followers d ++ (get_rec_all_ssn_followers l ++ get_rec_all_ssn_followers r))

is_null : Ssn → Bool
is_null null = true
is_null (node ch refc l r d nx) = false

-- The walk of `ssn_lte_match`. At the end of the string the followers are those of the node of its
-- last byte, if there is a node below it.
unfoldable pub lte_from : Ssn → ℕ → Bytes → List ℕ
unfolding get_rec_all_ssn_followers is_null
lte_from null c s = []
lte_from (node ch refc l r d nx) c s =
    if c == ch
    then elim s [
      | [] ↦ if is_null d then [] else get_rec_all_ssn_followers (node ch refc l r d nx)
      | e ∷ s' ↦ lte_from d e s'
    ]
    else if ltb c ch
    then lte_from l c s
    else lte_from r c s

-- The tree is not empty.
unfoldable pub ssn_lte_match : Ssn → Bytes → Direction → List ℕ → List ℕ
unfolding lte_from in_direction
ssn_lte_match t sp direction res = elim (in_direction sp direction) [
  | [] ↦ res
  | c ∷ s ↦ res ++ lte_from t c s
]

-- `ssn_dup`; `dup` is `junc_dup` on the junctions.
unfoldable pub ssn_dup : (ℕ → ℕ) → Ssn → Ssn
ssn_dup dup null = null
ssn_dup dup (node ch refc l r d nx) =
    node ch refc (ssn_dup dup l) (ssn_dup dup r) (ssn_dup dup d)
      (elim nx [ none ↦ none | some j ↦ some (dup j) ])

-- What `ssn_delete` does to a tree: its node has been cut off with all that hangs on it, or it stays,
-- and the junction is returned.
pub data Deleted : Type 0 where
  cut : Deleted
  kept : Ssn → Option ℕ → Deleted

next_of : Ssn → Option ℕ → Option ℕ
next_of null nx = nx
next_of (node ch refc l r d nx') nx = nx'

left_kept : (ch refc : ℕ) (left right down : Ssn) (next : Option ℕ) → Deleted → Deleted
left_kept ch refc l r d nx cut = kept (node ch refc null r d nx) none
left_kept ch refc l r d nx (kept t j) = kept (node ch refc t r d nx) j

right_kept : (ch refc : ℕ) (left right down : Ssn) (next : Option ℕ) → Deleted → Deleted
right_kept ch refc l r d nx cut = kept (node ch refc l null d nx) none
right_kept ch refc l r d nx (kept t j) = kept (node ch refc l t d nx) j

down_kept : (ch refc : ℕ) (left right down : Ssn) (next : Option ℕ) → Deleted → Deleted
down_kept ch refc l r d nx cut = kept (node ch refc l r null nx) none
down_kept ch refc l r d nx (kept t j) = kept (node ch refc l r t nx) j

-- The counter is unsigned. A string that is not in the tree stops at the node where it leaves it.
unfoldable pub delete_from : (up : Option ℕ) → Ssn → ℕ → Bytes → Deleted
unfolding next_of left_kept right_kept down_kept
delete_from up null c s = kept null up
delete_from up (node ch refc l r d nx) c s =
    let refc' = (refc + int_mod - 1) % int_mod in
    if c == ch
    then if refc' == 0 then cut else elim s [
      | [] ↦ kept (node ch refc' l r d nx) (next_of d nx)
      | e ∷ s' ↦ down_kept ch refc' l r d nx (delete_from nx d e s')
    ]
    else if ltb c ch
    then left_kept ch refc l r d nx (delete_from nx l c s)
    else right_kept ch refc l r d nx (delete_from nx r c s)

top_of : Deleted → Ssn × Option ℕ
top_of cut = (null, none)
top_of (kept t j) = (t, j)

-- The tree that is left at `*top`, and the junction returned; `none` for 0.
unfoldable pub ssn_delete : Ssn → Bytes → Direction → Result (Ssn × Option ℕ)
unfolding delete_from in_direction top_of
ssn_delete null sp direction = elim (in_direction sp direction) [ [] ↦ fault | c ∷ s ↦ fault ]
ssn_delete (node ch refc l r d nx) sp direction = elim (in_direction sp direction) [
  | [] ↦ ok (node ch refc l r d nx, nx)
  | c ∷ s ↦ ok (top_of (delete_from none (node ch refc l r d nx) c s))
]
