-- ===== src/Rulesets/Names.antt =====
-- server/ruleset.c, `ruleset_name` and `pathname_get`: the path before a rule, and the path of a rule set.
use spocp.Prelude.{
  ℕ, zero, suc, ◌+◌, ◌-◌, Bytes, List, [], ◌∷◌, ◌++◌, Option, none, some, ◌==◌, ltb, ◌||◌,
  if◌then◌else◌, length, take, drop, Result, ok, err, fault, ◌>>=◌, syntax_error, operations_error,
}
use spocp.Octet.Chars.{is_dirchar}
use spocp.Rulesets.Find.{Name}

-- The loop of `ruleset_name`, with the octets that are left: it reads the byte behind the last one, and
-- returns `l`.
unfoldable pub name_loop : ℕ → Bytes → Result ℕ
name_loop n [] = fault
name_loop zero (c ∷ m) = ok 0
name_loop (suc n) (c ∷ m) =
    if is_dirchar c || c == b'/' then (name_loop n m >>= λ l. ok (suc l)) else ok 0

-- `rsn`, none where it is set to null, and `orig` afterwards.
unfoldable pub ruleset_name : Name → Result (Option Bytes × Name)
unfolding name_loop
ruleset_name orig = elim orig.val [
  | [] ↦ fault
  | c ∷ m ↦
      if c == b'/'
      then (name_loop orig.len orig.val >>= λ l.
          if l == orig.len
          then err syntax_error
          else ok (some (take l orig.val), record { len = orig.len - l; val = drop l orig.val }))
      else ok (none, orig)
]

-- The first loop of `pathname_get`, over the names from the rule set up to the root.
unfoldable pub path_length : List Bytes → ℕ
path_length [] = 0
path_length (s ∷ up) = 1 + length s + path_length up

-- The second loop: what `strcat` puts into the buffer.
unfoldable pub path_text : List Bytes → Bytes
path_text [] = []
path_text (s ∷ up) = b'/' ∷ (s ++ path_text up)

-- The text in the buffer; its 0 follows.
unfoldable pub pathname_get : List Bytes → ℕ → Result Bytes
unfolding path_length path_text
pathname_get up buflen =
    if ltb buflen (path_length up + 1) then err operations_error else ok (path_text up)
