-- ===== src/Rulesets.antt =====
-- server/ruleset.c: the tree of rule sets. The rule sets of one level are linked to the left and to the
-- right in the order of their names, and a level is entered at the rule set that was made first.
pub mod Path
pub mod Find
pub mod Names
pub mod Order
pub mod Levels
pub mod Changes
pub mod Writes
pub mod Created
pub mod Branches
pub mod RoundTrip
pub mod Parts
pub mod Printed
pub mod Named
use spocp.Prelude.{ℕ, Bytes, Option, none, some, ◌==◌, if◌then◌else◌, is_negative}
use spocp.Octet.Compare.{oct2strcmp}

-- `ruleset_t` but its links: its address, by which its locks, rules and boundary conditions are known,
-- and its name.
pub record Info : Type 0 where
  pub self : ℕ
  pub name : Bytes

unfoldable pub ruleset_new : ℕ → Bytes → Info
ruleset_new a name = record { self = a; name = name }

-- The links of a rule set. A level is seen from the rule set that is pointed to: those to its left, the
-- nearest first, the rule set, what is below it, and those to its right. The link up leads back.
mutual
  pub data Level : Type 0 where
    null : Level
    level : Chain → Info → Level → Chain → Level

  pub data Chain : Type 0 where
    end : Chain
    item : Info → Level → Chain → Chain

-- A rule set as it is pointed to: what `ruleset_find` returns.
abbrev pub Node : Type 0
Node = Info × Level

-- The sign of a comparison: `same` is 0.
pub data Sign : Type 0 where
  below same above : Sign

unfoldable pub sign_of : ℕ → Sign
sign_of c = if c == 0 then same else if is_negative c then below else above

-- `c` of the loops: the name that is sought, against that of a rule set.
unfoldable pub sign : Bytes → Bytes → Sign
unfolding sign_of
sign name s = sign_of (oct2strcmp (some name) (some s))

-- The loops of `one_level`, with the test behind them.
unfoldable pub find_left : Bytes → Chain → Option Node
find_left name end = none
find_left name (item i d rest) = elim (sign name i.name) [
  | below ↦ find_left name rest
  | same ↦ some (i, d)
  | above ↦ none
]

unfoldable pub find_right : Bytes → Chain → Option Node
find_right name end = none
find_right name (item i d rest) = elim (sign name i.name) [
  | below ↦ none
  | same ↦ some (i, d)
  | above ↦ find_right name rest
]

unfoldable pub one_level : Bytes → Level → Option Node
unfolding find_left find_right
one_level name null = none
one_level name (level l i d r) = elim (sign name i.name) [
  | below ↦ find_left name l
  | same ↦ some (i, d)
  | above ↦ find_right name r
]

-- The loops of `add_to_level`: a new rule set at the far end, or before the first that it has passed.
unfoldable pub add_left : Bytes → ℕ → Chain → Chain
unfolding ruleset_new
add_left name a end = item (ruleset_new a name) null end
add_left name a (item i d rest) = elim (sign name i.name) [
  | below ↦ item i d (add_left name a rest)
  | same ↦ item i d rest
  | above ↦ item (ruleset_new a name) null (item i d rest)
]

unfoldable pub add_right : Bytes → ℕ → Chain → Chain
unfolding ruleset_new
add_right name a end = item (ruleset_new a name) null end
add_right name a (item i d rest) = elim (sign name i.name) [
  | below ↦ item (ruleset_new a name) null (item i d rest)
  | same ↦ item i d rest
  | above ↦ item i d (add_right name a rest)
]

-- The level with the new rule set; the pointer that is returned is the one that `one_level` finds.
unfoldable pub add_to_level : Bytes → ℕ → Level → Level
unfolding add_left add_right ruleset_new
add_to_level name a null = level end (ruleset_new a name) null end
add_to_level name a (level l i d r) = elim (sign name i.name) [
  | below ↦ level (add_left name a l) i d r
  | same ↦ level l i d r
  | above ↦ level l i d (add_right name a r)
]

-- A write to `down` of the rule set that `one_level` finds.
unfoldable pub set_left : Bytes → Level → Chain → Chain
set_left name b end = end
set_left name b (item i d rest) = elim (sign name i.name) [
  | below ↦ item i d (set_left name b rest)
  | same ↦ item i b rest
  | above ↦ item i d rest
]

unfoldable pub set_right : Bytes → Level → Chain → Chain
set_right name b end = end
set_right name b (item i d rest) = elim (sign name i.name) [
  | below ↦ item i d rest
  | same ↦ item i b rest
  | above ↦ item i d (set_right name b rest)
]

unfoldable pub set_down : Bytes → Level → Level → Level
unfolding set_left set_right
set_down name b null = null
set_down name b (level l i d r) = elim (sign name i.name) [
  | below ↦ level (set_left name b l) i d r
  | same ↦ level l i b r
  | above ↦ level l i d (set_right name b r)
]
