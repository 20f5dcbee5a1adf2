-- ===== src/Rulesets/Parts.antt =====
-- server/ruleset.c: `path_split` returns in front of a byte that cannot stand in a path, and no part of
-- the path is empty.
use spocp.Prelude.{
  ℕ, ◌+◌, Bytes, [], ◌∷◌, ◌++◌, Option, none, some, true, false, ◌==◌, length, Result, ok, All,
  All-append, Bool-cases, ◌≡◌, ◌≢◌, refl, sym, ◌∙◌, ◌⊎◌, inl, inr, arith,
}
use spocp.Octarr.{Octarr, octarr_new, octarr_add}
use spocp.Octarr.Laws.{IsOctarr, octarr_add-Extended}
use spocp.Octet.Chars.{is_dirchar}
use spocp.Rulesets.Path.{skip_slashes, path_run, split_loop, split_next, path_split}
use spocp.Rulesets.Find.{parts_of}
use spocp.Rulesets.Created.{IsPart}

-- The memory has a byte that cannot stand in a path.
abbrev pub Ended : Bytes → Type 0
Ended [] = ⊥
Ended (c ∷ m) = (is_dirchar c ≡ false) ⊎ Ended m

abbrev NoSlash : Bytes → Type 0
NoSlash [] = Unit
NoSlash (c ∷ m) = (c == b'/') ≡ false

pub slash-is_dirchar : (c : ℕ) → (c == b'/') ≡ true → is_dirchar c ≡ true
unfolding is_dirchar
slash-is_dirchar c e = ground arith

-- The steps of the loops.
pub split_loop-nil :
    (part : Bytes) (oa : Octarr) → split_loop part [] oa ≡ octarr_add (some oa) part
unfolding split_loop
split_loop-nil part oa = refl

pub split_next-nil : (oa : Octarr) → split_next [] oa ≡ ok oa
unfolding split_next
split_next-nil oa = refl

module _ (c : ℕ) where
  pub skip_slashes-slash :
      (m : Bytes) (k : ℕ) (r : Bytes)
      → (c == b'/') ≡ true
      → skip_slashes m ≡ ok (k, r)
      → skip_slashes (c ∷ m) ≡ ok (k + 1, r)
  unfolding skip_slashes
  skip_slashes-slash m k r e h = rw (e, h) refl

  pub skip_slashes-other : (m : Bytes) → (c == b'/') ≡ false → skip_slashes (c ∷ m) ≡ ok (0, c ∷ m)
  unfolding skip_slashes
  skip_slashes-other m e = rw e refl

  pub path_run-more :
      (m r : Bytes) → is_dirchar c ≡ true → path_run m ≡ ok r → path_run (c ∷ m) ≡ ok (c ∷ r)
  unfolding path_run
  path_run-more m r e h = ground (arith, e, h)

  pub path_run-end : (m : Bytes) → is_dirchar c ≡ false → path_run (c ∷ m) ≡ ok []
  unfolding path_run
  path_run-end m e = ground (arith, e, slash-is_dirchar c)

  pub split_loop-slash :
      (part s : Bytes) (res oa : Octarr)
      → (c == b'/') ≡ true
      → octarr_add (some res) part ≡ ok oa
      → split_loop part (c ∷ s) res ≡ split_next s oa
  unfolding split_loop
  split_loop-slash part s res oa e h = rw (e, h, split_loop) refl

  pub split_loop-other :
      (part s : Bytes) (res : Octarr)
      → (c == b'/') ≡ false
      → split_loop part (c ∷ s) res ≡ split_loop (part ++ (c ∷ [])) s res
  unfolding split_loop
  split_loop-other part s res e = rw (e, split_loop) refl

  pub split_next-slash :
      (s : Bytes) (res : Octarr) → (c == b'/') ≡ true → split_next (c ∷ s) res ≡ split_next s res
  unfolding split_next
  split_next-slash s res e = rw (e, split_next) refl

  pub split_next-other :
      (s : Bytes) (res : Octarr)
      → (c == b'/') ≡ false
      → split_next (c ∷ s) res ≡ split_loop (c ∷ []) s res
  unfolding split_next
  split_next-other s res e = rw (e, split_next) refl

pub still-Ended : (c : ℕ) (m : Bytes) → (c == b'/') ≡ true → Ended (c ∷ m) → Ended m
still-Ended c m e (inl d) = absurd (ground (arith, slash-is_dirchar c e, d))
still-Ended c m e (inr h) = h

skip_slashes_total :
    (m : Bytes)
    → Ended m
    → (k : ℕ) × (r : Bytes) × (skip_slashes m ≡ ok (k, r)) × Ended r × NoSlash r
skip_slashes_total [] h = absurd h
skip_slashes_total (c ∷ m) h = elim (Bool-cases (c == b'/')) [
  | inl e ↦
      let (k, r, eq, ended, start) = skip_slashes_total m (still-Ended c m e h) in
      (k + 1, r, skip_slashes-slash c m k r e eq, ended, start)
  | inr e ↦ (0, c ∷ m, skip_slashes-other c m e, h, e)
]

rest-Ended : (c : ℕ) (m : Bytes) → is_dirchar c ≡ true → Ended (c ∷ m) → Ended m
rest-Ended c m e (inl d) = absurd (ground (arith, d, e))
rest-Ended c m e (inr h) = h

path_run_total : (m : Bytes) → Ended m → (r : Bytes) × (path_run m ≡ ok r) × (NoSlash m → NoSlash r)
path_run_total [] h = absurd h
path_run_total (c ∷ m) h = elim (Bool-cases (is_dirchar c)) [
  | inl e ↦
      let (r, eq, start) = path_run_total m (rest-Ended c m e h) in
      (c ∷ r, path_run-more c m r e eq, λ s. s)
  | inr e ↦ ([], path_run-end c m e, λ s. tt)
]

-- What is returned has parts that are not empty.
abbrev Splits : Result Octarr → Type 0
Splits r = (oa : Octarr) × (r ≡ ok oa) × IsOctarr oa × All IsPart oa.arr

add_part :
    (oa : Octarr) (part : Bytes)
    → IsOctarr oa
    → All IsPart oa.arr
    → IsPart part
    → Splits (octarr_add (some oa) part)
add_part oa part h parts p =
    let (oa', eq, h', arr) = octarr_add-Extended oa part h in
    (oa', eq, h', rw arr (All-append IsPart oa.arr (part ∷ []) parts (p, tt)))

append-ne-nil : (p : Bytes) (c : ℕ) → (p ++ (c ∷ [])) ≢ []
append-ne-nil [] c e = cc
append-ne-nil (x ∷ p) c e = cc

mutual
  split_loop_total :
      (s part : Bytes) (oa : Octarr)
      → IsOctarr oa
      → All IsPart oa.arr
      → IsPart part
      → Splits (split_loop part s oa)
  split_loop_total [] part oa h parts p = rw (split_loop-nil part oa) (add_part oa part h parts p)
  split_loop_total (c ∷ s) part oa h parts p = elim (Bool-cases (c == b'/')) [
    | inl e ↦
        let (oa', eq, h', parts') = add_part oa part h parts p in
        rw (split_loop-slash c part s oa oa' e eq) (split_next_total s oa' h' parts')
    | inr e ↦
        rw (split_loop-other c part s oa e)
          (split_loop_total s (part ++ (c ∷ [])) oa h parts (append-ne-nil part c))
  ]

  split_next_total :
      (s : Bytes) (oa : Octarr) → IsOctarr oa → All IsPart oa.arr → Splits (split_next s oa)
  split_next_total [] oa h parts = (oa, split_next-nil oa, h, parts)
  split_next_total (c ∷ s) oa h parts = elim (Bool-cases (c == b'/')) [
    | inl e ↦ rw (split_next-slash c s oa e) (split_next_total s oa h parts)
    | inr e ↦ rw (split_next-other c s oa e) (split_loop_total s (c ∷ []) oa h parts (λ e. cc))
  ]

-- A path begins with no `/`, so its first part begins as if a `/` were before it.
pub split_loop-start :
    (c : ℕ) (s : Bytes) (oa : Octarr)
    → (c == b'/') ≡ false
    → split_loop [] (c ∷ s) oa ≡ split_next (c ∷ s) oa
split_loop-start c s oa e = split_loop-other c [] s oa e ∙ sym (split_next-other c s oa e)

pub path_split-none :
    (m r : Bytes) (k : ℕ)
    → skip_slashes m ≡ ok (k, r)
    → path_run r ≡ ok []
    → path_split m ≡ ok (none, k)
unfolding path_split
path_split-none m r k e h = rw (e, h) refl

some_length : (c : ℕ) (run : Bytes) → (length (c ∷ run) == 0) ≡ false
some_length c run = ground arith

pub path_split-some :
    (m r : Bytes) (k c : ℕ) (run : Bytes) (oa : Octarr)
    → skip_slashes m ≡ ok (k, r)
    → path_run r ≡ ok (c ∷ run)
    → (c == b'/') ≡ false
    → split_next (c ∷ run) (octarr_new 4) ≡ ok oa
    → path_split m ≡ ok (some oa, k + length (c ∷ run))
unfolding path_split
path_split-some m r k c run oa e h s eq =
    ground (arith, e, h, split_loop-start c run (octarr_new 4) s, eq)

-- What `path_split` promises.
abbrev pub SplitsPath : Bytes → Type 0
SplitsPath m = (o : Option Octarr) × (k : ℕ) × (path_split m ≡ ok (o, k)) × All IsPart (parts_of o)

pub octarr_new-IsOctarr : IsOctarr (octarr_new 4) × ((octarr_new 4).arr ≡ [])
unfolding octarr_new
octarr_new-IsOctarr = (omega arith, refl)

split_run :
    (m r : Bytes) (k : ℕ) (run : Bytes)
    → skip_slashes m ≡ ok (k, r)
    → path_run r ≡ ok run
    → NoSlash run
    → SplitsPath m
split_run m r k [] e h s = (none, k, path_split-none m r k e h, tt)
split_run m r k (c ∷ run) e h s =
    let (oa, eq, valid, parts) =
      split_next_total (c ∷ run) (octarr_new 4) (octarr_new-IsOctarr.0)
        (rw (octarr_new-IsOctarr.1) tt) in
    (some oa, k + length (c ∷ run), path_split-some m r k c run oa e h s eq, parts)

-- In memory with a byte that cannot stand in a path, `path_split` returns, and no part is empty.
pub path_split_total : (m : Bytes) → Ended m → SplitsPath m
path_split_total m h =
    let (k, r, skipped, ended, start) = skip_slashes_total m h in
    let (run, ran, begins) = path_run_total r ended in
    split_run m r k run skipped ran (begins start)
