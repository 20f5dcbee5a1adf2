-- ===== src/Rulesets/Named.antt =====
-- server/ruleset.c: `ruleset_name` takes the longest beginning that can stand in a path.
use spocp.Prelude.{
  ℕ, ◌-◌, Bytes, [], ◌∷◌, ◌++◌, some, true, ◌==◌, if◌then◌else◌, length, take, drop, length-append,
  take-append, drop-append, ok, err, syntax_error, ◌≡◌, ◌≢◌, refl, sym, ap, ◌∙◌, ◌⊎◌, inl, inr,
  arith, append_assoc, append-nil,
}
use spocp.Octet.Chars.{is_dirchar}
use spocp.Rulesets.Find.{Name}
use spocp.Rulesets.Names.{name_loop, ruleset_name}
use spocp.Rulesets.Parts.{slash-is_dirchar}

-- The longest beginning of bytes that can stand in a path, and what follows it.
abbrev pub path_part : Bytes → Bytes
path_part [] = []
path_part (c ∷ o) = if is_dirchar c then c ∷ path_part o else []

abbrev pub rule_part : Bytes → Bytes
rule_part [] = []
rule_part (c ∷ o) = if is_dirchar c then rule_part o else c ∷ o

parts_whole : (o : Bytes) → path_part o ++ rule_part o ≡ o
parts_whole [] = refl
parts_whole (c ∷ o) = ground (arith, parts_whole o)

name_loop_lem :
    (o m : Bytes) (z : ℕ) → name_loop (length o) (o ++ (z ∷ m)) ≡ ok (length (path_part o))
unfolding name_loop
name_loop_lem [] m z = refl
name_loop_lem (c ∷ o) m z = ground (arith, name_loop_lem o m z, slash-is_dirchar c)

-- The octets of a name, with memory behind them.
abbrev pub octets_in : Bytes → Bytes → Name
octets_in o m = record { len = length o; val = o ++ m }

-- What `ruleset_name` returns of a text that begins with a `/`.
abbrev pub Named : Bytes → Bytes → Type 0
Named o m =
    (rule_part o ≡ []) × (ruleset_name (octets_in o m) ≡ err syntax_error)
    ⊎ (rule_part o ≢ [])
      × (ruleset_name (octets_in o m) ≡ ok (some (path_part o), octets_in (rule_part o) m))

cut :
    (p r o m : Bytes)
    → p ++ r ≡ o
    → (take (length p) (o ++ m) ≡ p)
      × (drop (length p) (o ++ m) ≡ r ++ m)
      × (length o - length p ≡ length r)
cut p r o m whole = rw (← whole) (
    rw (append_assoc p r m)
      (take-append p (r ++ m), drop-append p (r ++ m), omega (arith, length-append p r)))

-- Where the loop of a name that begins with a `/` has stopped.
module _ (c z : ℕ) (t m p : Bytes) (slash : (c == b'/') ≡ true)
    (looped : name_loop (length (c ∷ t)) ((c ∷ t) ++ (z ∷ m)) ≡ ok (length p)) where
  all_path : length p ≡ length (c ∷ t) → ruleset_name (octets_in (c ∷ t) (z ∷ m)) ≡ err syntax_error
  unfolding ruleset_name
  all_path e = ground (arith, slash, looped, e)

  some_rule :
      (x : ℕ) (r : Bytes)
      → p ++ (x ∷ r) ≡ c ∷ t
      → ruleset_name (octets_in (c ∷ t) (z ∷ m)) ≡ ok (some p, octets_in (x ∷ r) (z ∷ m))
  unfolding ruleset_name
  some_rule x r whole = ground (
    arith,
    slash,
    looped,
    length-append p (x ∷ r),
    cut p (x ∷ r) (c ∷ t) (z ∷ m) whole,
    ap length whole,
  )

rule_cases :
    (c z : ℕ) (t m p r : Bytes)
    → (c == b'/') ≡ true
    → name_loop (length (c ∷ t)) ((c ∷ t) ++ (z ∷ m)) ≡ ok (length p)
    → p ++ r ≡ c ∷ t
    → (r ≡ []) × (ruleset_name (octets_in (c ∷ t) (z ∷ m)) ≡ err syntax_error)
      ⊎ (r ≢ []) × (ruleset_name (octets_in (c ∷ t) (z ∷ m)) ≡ ok (some p, octets_in r (z ∷ m)))
rule_cases c z t m p [] slash looped whole =
    inl (refl, all_path c z t m p slash looped (ap length (sym (append-nil p) ∙ whole)))
rule_cases c z t m p (x ∷ r) slash looped whole =
    inr (λ e. cc, some_rule c z t m p slash looped x r whole)

-- Of a text that begins with a `/`, `ruleset_name` hands out the longest beginning of bytes that can stand
-- in a path and leaves the rest; if there is no rest, it is a syntax error. A byte follows the text.
pub ruleset_name-Named :
    (o m : Bytes) (z : ℕ) (c : ℕ) (t : Bytes) → o ≡ (c ∷ t) → (c == b'/') ≡ true → Named o (z ∷ m)
ruleset_name-Named o m z c t e slash = rw e (
    rule_cases c z t m (path_part (c ∷ t)) (rule_part (c ∷ t)) slash (name_loop_lem (c ∷ t) m z)
      (parts_whole (c ∷ t)))
