-- ===== src/Rulesets/Writes.antt =====
-- server/ruleset.c: how a write to `down` of the rule set that `one_level` finds changes a level.
use spocp.Prelude.{Bytes, some, ◌≡◌, ◌≢◌, refl, arith}
use spocp.Rulesets.{
  Level, null, level, Chain, end, item, Node, find_left, find_right, one_level, set_left, set_right,
  set_down,
}
use spocp.Rulesets.Order.{LexLt-ne-nil, sign-cases, IsLevel, Rises, Falls}

module _ (p : Bytes) (v : Level) (n : Node) where
  -- The rule set keeps its name and its place.
  set_left_self :
      (l : Chain) → find_left p l ≡ some n → find_left p (set_left p v l) ≡ some (n.0, v)
  unfolding find_left set_left
  set_left_self end e = cc
  set_left_self (item i d rest) e = ground (arith, set_left_self rest)

  set_right_self :
      (l : Chain) → find_right p l ≡ some n → find_right p (set_right p v l) ≡ some (n.0, v)
  unfolding find_right set_right
  set_right_self end e = cc
  set_right_self (item i d rest) e = ground (arith, set_right_self rest)

  pub set_down_self :
      (w : Level) → one_level p w ≡ some n → one_level p (set_down p v w) ≡ some (n.0, v)
  unfolding one_level set_down
  set_down_self null e = cc
  set_down_self (level l i d r) e = ground (arith, set_left_self l, set_right_self r)

module _ (p : Bytes) (v : Level) where
  module _ (q : Bytes) (differ : p ≢ q) where
    set_left_other :
        (b : Bytes) (l : Chain) → Rises b l → find_left q (set_left p v l) ≡ find_left q l
    unfolding find_left set_left
    set_left_other b end h = refl
    set_left_other b (item i d rest) h = ground (
      arith,
      sign-cases p i.name (LexLt-ne-nil b i.name h.0),
      sign-cases q i.name (LexLt-ne-nil b i.name h.0),
      set_left_other i.name rest h.2,
    )

    set_right_other :
        (b : Bytes) (l : Chain) → Falls b l → find_right q (set_right p v l) ≡ find_right q l
    unfolding find_right set_right
    set_right_other b end h = refl
    set_right_other b (item i d rest) h =
        ground
          (arith, sign-cases p i.name h.0, sign-cases q i.name h.0, set_right_other i.name rest h.3)

    pub set_down_other : (w : Level) → IsLevel w → one_level q (set_down p v w) ≡ one_level q w
    unfolding one_level set_down
    set_down_other null h = refl
    set_down_other (level l i d r) h = ground (
      arith,
      sign-cases p i.name h.0,
      sign-cases q i.name h.0,
      set_left_other i.name l h.2,
      set_right_other i.name r h.3,
    )

  module _ (ordered : IsLevel v) where
    pub set_left-Rises : (b : Bytes) (l : Chain) → Rises b l → Rises b (set_left p v l)
    unfolding set_left
    set_left-Rises b end h = tt
    set_left-Rises b (item i d rest) h = ground (
      arith,
      ordered,
      sign-cases p i.name (LexLt-ne-nil b i.name h.0),
      set_left-Rises i.name rest h.2,
    )

    set_right-Falls : (b : Bytes) (l : Chain) → Falls b l → Falls b (set_right p v l)
    unfolding set_right
    set_right-Falls b end h = tt
    set_right-Falls b (item i d rest) h =
        ground (arith, ordered, sign-cases p i.name h.0, set_right-Falls i.name rest h.3)

    pub set_down-IsLevel : (w : Level) → IsLevel w → IsLevel (set_down p v w)
    unfolding set_down
    set_down-IsLevel null h = tt
    set_down-IsLevel (level l i d r) h = ground (
      arith,
      ordered,
      sign-cases p i.name h.0,
      set_left-Rises i.name l h.2,
      set_right-Falls i.name r h.3,
    )

-- What is below a rule set of a level that is in order is in order.
pub find_left-IsLevel :
    (p b : Bytes) (l : Chain) (n : Node) → Rises b l → find_left p l ≡ some n → IsLevel n.1
unfolding find_left
find_left-IsLevel p b end n h e = cc
find_left-IsLevel p b (item i d rest) n h e =
    ground (
      arith,
      sign-cases p i.name (LexLt-ne-nil b i.name h.0),
      find_left-IsLevel p i.name rest n h.2,
    )

find_right-IsLevel :
    (p b : Bytes) (l : Chain) (n : Node) → Falls b l → find_right p l ≡ some n → IsLevel n.1
unfolding find_right
find_right-IsLevel p b end n h e = cc
find_right-IsLevel p b (item i d rest) n h e =
    ground (arith, sign-cases p i.name h.0, find_right-IsLevel p i.name rest n h.3)

pub one_level-IsLevel :
    (p : Bytes) (w : Level) (n : Node) → IsLevel w → one_level p w ≡ some n → IsLevel n.1
unfolding one_level
one_level-IsLevel p null n h e = cc
one_level-IsLevel p (level l i d r) n h e = ground (
  arith,
  sign-cases p i.name h.0,
  find_left-IsLevel p i.name l n h.2,
  find_right-IsLevel p i.name r n h.3,
)
