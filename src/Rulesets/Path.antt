-- ===== src/Rulesets/Path.antt =====
-- server/ruleset.c, `path_split`: the parts of a path. The path is read from memory until a byte that
-- cannot stand in one, whatever the length of its octet string; `fault` is a read outside of the memory.
use spocp.Prelude.{
  ℕ, ◌+◌, Bytes, [], ◌∷◌, ◌++◌, Option, none, some, true, false, ◌||◌, ◌==◌, if◌then◌else◌, length,
  Result, ok, fault, ◌>>=◌,
}
use spocp.Octet.Chars.{is_dirchar}
use spocp.Octarr.{Octarr, octarr_new, octarr_add}

-- `while (*tmp.val == '/')`, with the number of bytes that are skipped.
unfoldable pub skip_slashes : Bytes → Result (ℕ × Bytes)
skip_slashes [] = fault
skip_slashes (c ∷ m) =
    if c == b'/' then (skip_slashes m >>= λ p. ok (p.0 + 1, p.1)) else ok (0, c ∷ m)

-- The bytes that may stand in a path.
unfoldable pub path_run : Bytes → Result Bytes
path_run [] = fault
path_run (c ∷ m) = if c == b'/' || is_dirchar c then (path_run m >>= λ p. ok (c ∷ p)) else ok []

-- The loop over the copy: a part ends before a `/`, and the `/` behind that one are skipped.
unfoldable mutual
  pub split_loop : Bytes → Bytes → Octarr → Result Octarr
  split_loop part [] res = octarr_add (some res) part
  split_loop part (c ∷ s) res = elim (c == b'/') [
    | true ↦ octarr_add (some res) part >>= λ res'. split_next s res'
    | false ↦ split_loop (part ++ (c ∷ [])) s res
  ]

  pub split_next : Bytes → Octarr → Result Octarr
  split_next [] res = ok res
  split_next (c ∷ s) res = elim (c == b'/') [
    | true ↦ split_next s res
    | false ↦ split_loop (c ∷ []) s res
  ]

-- The parts, none if there is no path, and `pathlen`.
unfoldable pub path_split : Bytes → Result (Option Octarr × ℕ)
unfolding skip_slashes path_run split_loop split_next
path_split m = skip_slashes m >>= λ p. path_run p.1 >>= λ run.
    if length run == 0
    then ok (none, p.0)
    else split_loop [] run (octarr_new 4) >>= λ res. ok (some res, p.0 + length run)
