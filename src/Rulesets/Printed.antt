-- ===== src/Rulesets/Printed.antt =====
-- server/ruleset.c: `path_split` of a path as it is written, and of one that `pathname_get` has written.
use spocp.Prelude.{
  ℕ, zero, suc, ◌+◌, ◌≤◌, ◌<◌, Bytes, List, [], ◌∷◌, ◌++◌, some, true, false, ◌==◌, ltb, length, ok,
  err, operations_error, All, All-append, Bool-cases, ◌≡◌, ◌≢◌, refl, sym, ap, ◌∙◌, ◌⊎◌, inl, inr,
  arith, append_assoc, append-nil, length-append,
}
use mathlib.Core.List.{map}
use spocp.Octarr.{Octarr, octarr_new}
use spocp.Octarr.Laws.{IsOctarr, Extended, octarr_add-Extended}
use spocp.Octet.Chars.{is_vchar, is_dirchar}
use spocp.Rulesets.Path.{skip_slashes, path_run, split_loop, split_next, path_split}
use spocp.Rulesets.Names.{path_length, path_text, pathname_get}
use spocp.Rulesets.Parts.{
  skip_slashes-slash, skip_slashes-other, path_run-more, path_run-end, split_loop-nil,
  split_loop-slash, split_loop-other, split_next-nil, split_next-slash, split_next-other,
  path_split-some, octarr_new-IsOctarr, slash-is_dirchar,
}

-- A part of a path.
abbrev pub IsWord : Bytes → Type 0
IsWord p = (p ≢ []) × All (λ c. is_vchar c ≡ true) p

abbrev pub slash_run : ℕ → Bytes
slash_run zero = []
slash_run (suc k) = b'/' ∷ slash_run k

-- Parts, each with the number of `/` behind it.
abbrev pub spell : List (Bytes × ℕ) → Bytes
spell [] = []
spell ((p, k) ∷ ws) = p ++ (slash_run k ++ spell ws)

-- There is a `/` between two parts.
abbrev pub IsSpaced : List (Bytes × ℕ) → Type 0
IsSpaced [] = Unit
IsSpaced ((p, k) ∷ ws) = IsWord p × ((ws ≡ []) ⊎ (1 ≤ k)) × IsSpaced ws

abbrev pub words : List (Bytes × ℕ) → List Bytes
words [] = []
words ((p, k) ∷ ws) = p ∷ words ws

vchar_tests : (c : ℕ) → is_vchar c ≡ true → (is_dirchar c ≡ true) × ((c == b'/') ≡ false)
unfolding is_dirchar
vchar_tests c h = ground arith

split_word :
    (p part s : Bytes) (oa : Octarr)
    → All (λ c. is_vchar c ≡ true) p
    → split_loop part (p ++ s) oa ≡ split_loop (part ++ p) s oa
split_word [] part s oa h = rw (append-nil part) refl
split_word (c ∷ p) part s oa h =
    split_loop-other c part (p ++ s) oa (vchar_tests c h.0).1
    ∙ split_word p (part ++ (c ∷ [])) s oa h.1
    ∙ ap (λ t. split_loop t s oa) (append_assoc part (c ∷ []) p)

split_slashes :
    (k : ℕ) (s : Bytes) (oa : Octarr) → split_next (slash_run k ++ s) oa ≡ split_next s oa
split_slashes zero s oa = refl
split_slashes (suc k) s oa = split_next-slash b'/' (slash_run k ++ s) oa refl ∙ split_slashes k s oa

first_word : (p s : Bytes) (oa : Octarr) → IsWord p → split_next (p ++ s) oa ≡ split_loop p s oa
first_word [] s oa h = absurd (h.0 refl)
first_word (c ∷ p) s oa h =
    split_next-other c (p ++ s) oa (vchar_tests c (h.1).0).1 ∙ split_word p (c ∷ []) s oa (h.1).1

split_next-spell :
    (ws : List (Bytes × ℕ)) (oa : Octarr)
    → IsOctarr oa
    → IsSpaced ws
    → Extended (oa.arr ++ words ws) (split_next (spell ws) oa)
split_next-spell [] oa valid h = (oa, split_next-nil oa, valid, sym (append-nil oa.arr))
split_next-spell ((p, zero) ∷ []) oa valid h =
    rw (first_word p [] oa h.0, split_loop-nil p oa) (octarr_add-Extended oa p valid)
split_next-spell ((p, zero) ∷ (w ∷ ws)) oa valid h = absurd (no_room h.1)
  where
    no_room : ((w ∷ ws) ≡ []) ⊎ (1 ≤ 0) → ⊥
    no_room (inl e) = cc
    no_room (inr e) = omega arith
split_next-spell ((p, suc k) ∷ ws) oa valid h =
    let (oa', eq, valid', arr) = octarr_add-Extended oa p valid in
    let (oa'', eq', valid'', arr') = split_next-spell ws oa' valid' h.2 in
    (
      oa'',
      first_word p _ oa h.0
          ∙ split_loop-slash b'/' p (slash_run k ++ spell ws) oa oa' refl eq
          ∙ split_slashes k (spell ws) oa'
          ∙ eq',
      valid'',
      arr' ∙ ap (λ t. t ++ words ws) arr ∙ append_assoc oa.arr (p ∷ []) (words ws),
    )

All-is_dirchar : (p : Bytes) → All (λ c. is_vchar c ≡ true) p → All (λ c. is_dirchar c ≡ true) p
All-is_dirchar [] h = tt
All-is_dirchar (c ∷ p) h = ((vchar_tests c h.0).0, All-is_dirchar p h.1)

slashes_dirchar : (k : ℕ) → All (λ c. is_dirchar c ≡ true) (slash_run k)
slashes_dirchar zero = tt
slashes_dirchar (suc k) = (slash-is_dirchar b'/' refl, slashes_dirchar k)

spell_dirchar : (ws : List (Bytes × ℕ)) → IsSpaced ws → All (λ c. is_dirchar c ≡ true) (spell ws)
spell_dirchar [] h = tt
spell_dirchar ((p, k) ∷ ws) h =
    All-append (λ c. is_dirchar c ≡ true) p (slash_run k ++ spell ws) (All-is_dirchar p (h.0).1)
      (All-append (λ c. is_dirchar c ≡ true) (slash_run k) (spell ws) (slashes_dirchar k)
        (spell_dirchar ws h.2))

path_run_text :
    (t : Bytes) (z : ℕ) (m : Bytes)
    → All (λ c. is_dirchar c ≡ true) t
    → is_dirchar z ≡ false
    → path_run (t ++ (z ∷ m)) ≡ ok t
path_run_text [] z m h e = path_run-end z m e
path_run_text (c ∷ t) z m h e = path_run-more c (t ++ (z ∷ m)) t h.0 (path_run_text t z m h.1 e)

skip_slashes_run :
    (j c : ℕ) (m : Bytes)
    → (c == b'/') ≡ false
    → skip_slashes (slash_run j ++ (c ∷ m)) ≡ ok (j, c ∷ m)
skip_slashes_run zero c m e = skip_slashes-other c m e
skip_slashes_run (suc j) c m e =
    skip_slashes-slash b'/' _ j (c ∷ m) refl (skip_slashes_run j c m e)
    ∙ ap (λ t. ok (t, c ∷ m)) (omega arith)

-- Parts with one `/` or more between them, behind any number of `/` and before a byte that cannot stand
-- in a path, are what `path_split` returns, with the length of the whole path.
pub path_split-spell :
    (j : ℕ) (w : Bytes × ℕ) (ws : List (Bytes × ℕ)) (z : ℕ) (m : Bytes)
    → IsSpaced (w ∷ ws)
    → is_dirchar z ≡ false
    → (oa : Octarr) × (path_split (slash_run j ++ (spell (w ∷ ws) ++ (z ∷ m)))
        ≡ ok (some oa, j + length (spell (w ∷ ws))))
      × (oa.arr ≡ words (w ∷ ws))
path_split-spell j ([], k) ws z m h e = absurd (h.0.0 refl)
path_split-spell j ((c ∷ p), k) ws z m h e =
    let other = (vchar_tests c h.0.1.0).1 in
    let path : Bytes = p ++ (slash_run k ++ spell ws) in
    let (oa, split, valid, arr) =
      split_next-spell (((c ∷ p), k) ∷ ws) (octarr_new 4) (octarr_new-IsOctarr.0) h in
    (
      oa,
      path_split-some _ (c ∷ (path ++ (z ∷ m))) j c path oa
          (skip_slashes_run j c (path ++ (z ∷ m)) other)
          (path_run_text (c ∷ path) z m (spell_dirchar (((c ∷ p), k) ∷ ws) h) e) other split,
      arr ∙ ap (λ t. t ++ words (((c ∷ p), k) ∷ ws)) (octarr_new-IsOctarr.1),
    )

-- What `pathname_get` writes for a rule set below the root.
path_text-spell :
    (up : List Bytes) → path_text (up ++ ([] ∷ [])) ≡ b'/' ∷ spell (map (λ s. (s, 1)) up)
unfolding path_text
path_text-spell [] = refl
path_text-spell (s ∷ up) = ap (λ t. b'/' ∷ (s ++ t)) (path_text-spell up)

words-map : (up : List Bytes) → words (map (λ s. (s, 1)) up) ≡ up
words-map [] = refl
words-map (s ∷ up) = ap (λ t. s ∷ t) (words-map up)

IsSpaced-map : (up : List Bytes) → All IsWord up → IsSpaced (map (λ s. (s, 1)) up)
IsSpaced-map [] h = tt
IsSpaced-map (s ∷ up) h = (h.0, inr (omega arith), IsSpaced-map up h.1)

length-path_text : (up : List Bytes) → length (path_text up) ≡ path_length up
unfolding path_text path_length
length-path_text [] = refl
length-path_text (s ∷ up) = omega (arith, length-append s (path_text up), length-path_text up)

-- `pathname_get` fails exactly if the buffer has no room for the text and its 0.
pub pathname_get_fits :
    (up : List Bytes) (n : ℕ)
    → (length (path_text up) < n) × (pathname_get up n ≡ ok (path_text up))
      ⊎ (n ≤ length (path_text up)) × (pathname_get up n ≡ err operations_error)
unfolding pathname_get
pathname_get_fits up n = elim (Bool-cases (ltb n (path_length up + 1))) [
  | inl short ↦ inr (ground (arith, short, length-path_text up), rw short refl)
  | inr fits ↦ inl (ground (arith, fits, length-path_text up), rw fits refl)
]

what_fits :
    (up : List Bytes) (n : ℕ) (text : Bytes) → pathname_get up n ≡ ok text → text ≡ path_text up
what_fits up n text e = elim (pathname_get_fits up n) [
  | inl p ↦ ground (arith, p.1, e)
  | inr p ↦ ground (arith, p.1, e)
]

nul_ends : is_dirchar 0 ≡ false
unfolding is_dirchar
nul_ends = refl

-- The path that `pathname_get` writes for a rule set below the root, given the names from the rule set
-- up, is read back by `path_split` with its parts in that order, from the rule set up to the root.
pub path_split-pathname_get :
    (s : Bytes) (up : List Bytes) (n : ℕ) (text m : Bytes)
    → All IsWord (s ∷ up)
    → pathname_get ((s ∷ up) ++ ([] ∷ [])) n ≡ ok text
    → (oa : Octarr) × (path_split (text ++ (0 ∷ m)) ≡ ok (some oa, length text)) × (oa.arr ≡ s ∷ up)
path_split-pathname_get s up n text m h e =
    let ws = map (λ t. (t, 1)) up in
    let is_text : text ≡ b'/' ∷ spell ((s, 1) ∷ ws) =
      what_fits ((s ∷ up) ++ ([] ∷ [])) n text e ∙ path_text-spell (s ∷ up) in
    let (oa, split, arr) = path_split-spell 1 (s, 1) ws 0 m (IsSpaced-map (s ∷ up) h) nul_ends in
    (oa, rw is_text (split ∙ ap (λ k. ok (some oa, k)) (omega arith)), arr ∙ words-map (s ∷ up))
