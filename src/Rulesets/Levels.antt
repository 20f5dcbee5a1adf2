-- ===== src/Rulesets/Levels.antt =====
-- server/ruleset.c: what `one_level` finds in a level that is in order.
use spocp.Prelude.{Bytes, [], some, ◌≡◌, ◌≢◌, ◌⊎◌, ◌↔◌, inl, inr, arith}
use spocp.Rulesets.{Level, null, level, Chain, end, item, Node, find_left, find_right, one_level}
use spocp.Octet.Compare.Order.{LexLt}
use spocp.Rulesets.Order.{
  LexLt-trans, LexLt-ne-nil, sign-same, sign-below, sign-above, sign-cases, IsLevel, Rises, Falls,
}

-- The rule set stands in the level.
abbrev pub Stands : Node → Chain → Type 0
Stands n end = ⊥
Stands n (item i d rest) = (n ≡ (i, d)) ⊎ Stands n rest

abbrev pub Member : Node → Level → Type 0
Member n null = ⊥
Member n (level l i d r) = (n ≡ (i, d)) ⊎ Stands n l ⊎ Stands n r

-- A rule set to the left of a name comes behind it, and one to the right before it.
Stands-Rises : (b : Bytes) (l : Chain) (n : Node) → Rises b l → Stands n l → LexLt b n.0.name
Stands-Rises b end n h m = absurd m
Stands-Rises b (item i d rest) n h (inl m) = rw m (h.0)
Stands-Rises b (item i d rest) n h (inr m) =
    LexLt-trans b i.name n.0.name h.0 (Stands-Rises i.name rest n h.2 m)

Stands-Falls :
    (b : Bytes) (l : Chain) (n : Node) → Falls b l → Stands n l → (n.0.name ≢ []) × LexLt n.0.name b
Stands-Falls b end n h m = absurd m
Stands-Falls b (item i d rest) n h (inl m) = rw m (h.0, h.1)
Stands-Falls b (item i d rest) n h (inr m) =
    let ih = Stands-Falls i.name rest n h.3 m in (ih.0, LexLt-trans n.0.name i.name b ih.1 h.1)

find_left_sound :
    (name b : Bytes) (l : Chain) (n : Node)
    → Rises b l
    → find_left name l ≡ some n
    → Stands n l × (n.0.name ≡ name)
unfolding find_left
find_left_sound name b end n h e = cc
find_left_sound name b (item i d rest) n h e = ground (
  arith,
  sign-cases name i.name (LexLt-ne-nil b i.name h.0),
  find_left_sound name i.name rest n h.2,
)

find_right_sound :
    (name b : Bytes) (l : Chain) (n : Node)
    → Falls b l
    → find_right name l ≡ some n
    → Stands n l × (n.0.name ≡ name)
unfolding find_right
find_right_sound name b end n h e = cc
find_right_sound name b (item i d rest) n h e =
    ground (arith, sign-cases name i.name h.0, find_right_sound name i.name rest n h.3)

find_left_complete :
    (name b : Bytes) (l : Chain) (n : Node)
    → Rises b l
    → n.0.name ≡ name
    → Stands n l
    → find_left name l ≡ some n
unfolding find_left
find_left_complete name b end n h e m = absurd m
find_left_complete name b (item i d rest) n h e (inl m) =
    rw (sign-same name i.name (LexLt-ne-nil b i.name h.0) (ground (arith, m, e)), find_left) (cc)
find_left_complete name b (item i d rest) n h e (inr m) =
    let lt : LexLt i.name name = rw (← e) (Stands-Rises i.name rest n h.2 m) in
    rw (sign-below name i.name (LexLt-ne-nil b i.name h.0) lt, find_left)
      (find_left_complete name i.name rest n h.2 e m)

find_right_complete :
    (name b : Bytes) (l : Chain) (n : Node)
    → Falls b l
    → n.0.name ≡ name
    → Stands n l
    → find_right name l ≡ some n
unfolding find_right
find_right_complete name b end n h e m = absurd m
find_right_complete name b (item i d rest) n h e (inl m) =
    rw (sign-same name i.name h.0 (ground (arith, m, e)), find_right) (cc)
find_right_complete name b (item i d rest) n h e (inr m) =
    let gt : LexLt name i.name = rw (← e) ((Stands-Falls i.name rest n h.3 m).1) in
    rw (sign-above name i.name h.0 gt, find_right) (find_right_complete name i.name rest n h.3 e m)

one_level_sound :
    (name : Bytes) (v : Level) (n : Node)
    → IsLevel v
    → one_level name v ≡ some n
    → Member n v × (n.0.name ≡ name)
unfolding one_level
one_level_sound name null n h e = cc
one_level_sound name (level l i d r) n h e = ground (
  arith,
  sign-cases name i.name h.0,
  find_left_sound name i.name l n h.2,
  find_right_sound name i.name r n h.3,
)

one_level_complete :
    (name : Bytes) (v : Level) (n : Node)
    → IsLevel v
    → Member n v × (n.0.name ≡ name)
    → one_level name v ≡ some n
unfolding one_level
one_level_complete name null n h (m, e) = absurd m
one_level_complete name (level l i d r) n h (inl m, e) =
    rw (sign-same name i.name h.0 (ground (arith, m, e)), one_level) (cc)
one_level_complete name (level l i d r) n h (inr (inl m), e) =
    let lt : LexLt i.name name = rw (← e) (Stands-Rises i.name l n h.2 m) in
    rw (sign-below name i.name h.0 lt, one_level) (find_left_complete name i.name l n h.2 e m)
one_level_complete name (level l i d r) n h (inr (inr m), e) =
    let gt : LexLt name i.name = rw (← e) ((Stands-Falls i.name r n h.3 m).1) in
    rw (sign-above name i.name h.0 gt, one_level) (find_right_complete name i.name r n h.3 e m)

-- In a level that is in order, entered anywhere, `one_level` finds a rule set exactly if it stands in the
-- level and has the name.
pub one_level-Member :
    (name : Bytes) (v : Level) (n : Node)
    → IsLevel v
    → (one_level name v ≡ some n) ↔ (Member n v × (n.0.name ≡ name))
one_level-Member name v n h = (one_level_sound name v n h, one_level_complete name v n h)

pub one_level-name :
    (name : Bytes) (v : Level) (n : Node) → IsLevel v → one_level name v ≡ some n → n.0.name ≡ name
one_level-name name v n h e = (one_level_sound name v n h e).1
