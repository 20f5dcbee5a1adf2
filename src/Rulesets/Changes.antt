-- ===== src/Rulesets/Changes.antt =====
-- server/ruleset.c: how `add_to_level` and a write to `down` change what `one_level` finds, and that
-- they keep a level in order.
use spocp.Prelude.{ℕ, Bytes, [], none, some, ◌≡◌, ◌≢◌, refl, arith}
use spocp.Octet.Compare.Order.{LexLt}
use spocp.Rulesets.{
  ruleset_new, Level, null, level, Chain, end, item, find_left, find_right, one_level, add_left,
  add_right, add_to_level,
}
use spocp.Rulesets.Order.{
  LexLt-trans, LexLt-ne-nil, sign-same, sign-below, sign-above, sign-cases, IsLevel, Rises, Falls,
}

module _ (p : Bytes) (a : ℕ) (filled : p ≢ []) where
  -- The name is found behind the loop, in a new rule set if it was not found before.
  add_left_self :
      (b : Bytes) (l : Chain)
      → Rises b l
      → find_left p l ≡ none
      → find_left p (add_left p a l) ≡ some (ruleset_new a p, null)
  unfolding find_left add_left ruleset_new
  add_left_self b end h e = rw (sign-same p p filled refl, find_left) refl
  add_left_self b (item i d rest) h e = ground (
    arith,
    sign-same p p filled refl,
    sign-cases p i.name (LexLt-ne-nil b i.name h.0),
    add_left_self i.name rest h.2,
  )

  add_right_self :
      (b : Bytes) (l : Chain)
      → Falls b l
      → find_right p l ≡ none
      → find_right p (add_right p a l) ≡ some (ruleset_new a p, null)
  unfolding find_right add_right ruleset_new
  add_right_self b end h e = rw (sign-same p p filled refl, find_right) refl
  add_right_self b (item i d rest) h e =
      ground
        (arith, sign-same p p filled refl, sign-cases p i.name h.0, add_right_self i.name rest h.3)

  pub add_to_level_self :
      (v : Level)
      → IsLevel v
      → one_level p v ≡ none
      → one_level p (add_to_level p a v) ≡ some (ruleset_new a p, null)
  unfolding one_level add_to_level ruleset_new
  add_to_level_self null h e = rw (sign-same p p filled refl, one_level) refl
  add_to_level_self (level l i d r) h e =
      ground
        (arith, sign-cases p i.name h.0, add_left_self i.name l h.2, add_right_self i.name r h.3)

  module _ (q : Bytes) (differ : p ≢ q) where
    add_left_other :
        (b : Bytes) (l : Chain) → Rises b l → find_left q (add_left p a l) ≡ find_left q l
    unfolding find_left add_left ruleset_new
    add_left_other b end h = ground (arith, sign-cases q p filled)
    add_left_other b (item i d rest) h = ground (
      arith,
      sign-cases q p filled,
      sign-cases p i.name (LexLt-ne-nil b i.name h.0),
      add_left_other i.name rest h.2,
      LexLt-trans q p i.name,
      sign-above q i.name (LexLt-ne-nil b i.name h.0),
    )

    add_right_other :
        (b : Bytes) (l : Chain) → Falls b l → find_right q (add_right p a l) ≡ find_right q l
    unfolding find_right add_right ruleset_new
    add_right_other b end h = ground (arith, sign-cases q p filled)
    add_right_other b (item i d rest) h = ground (
      arith,
      sign-cases q p filled,
      sign-cases p i.name h.0,
      add_right_other i.name rest h.3,
      LexLt-trans i.name p q,
      sign-below q i.name h.0,
    )

    pub add_to_level_other :
        (v : Level) → IsLevel v → one_level q (add_to_level p a v) ≡ one_level q v
    unfolding one_level add_to_level ruleset_new
    add_to_level_other null h = ground (arith, sign-cases q p filled)
    add_to_level_other (level l i d r) h =
        ground (
          arith,
          sign-cases p i.name h.0,
          add_left_other i.name l h.2,
          add_right_other i.name r h.3,
        )

  -- The level stays in order.
  add_left-Rises : (b : Bytes) (l : Chain) → LexLt b p → Rises b l → Rises b (add_left p a l)
  unfolding add_left ruleset_new
  add_left-Rises b end lt h = (lt, tt, tt)
  add_left-Rises b (item i d rest) lt h =
      ground (arith, sign-cases p i.name (LexLt-ne-nil b i.name h.0), add_left-Rises i.name rest)

  add_right-Falls : (b : Bytes) (l : Chain) → LexLt p b → Falls b l → Falls b (add_right p a l)
  unfolding add_right ruleset_new
  add_right-Falls b end lt h = (filled, lt, tt, tt)
  add_right-Falls b (item i d rest) lt h =
      ground (arith, filled, sign-cases p i.name h.0, add_right-Falls i.name rest)

  pub add_to_level-IsLevel : (v : Level) → IsLevel v → IsLevel (add_to_level p a v)
  unfolding add_to_level ruleset_new
  add_to_level-IsLevel null h = (filled, tt, tt, tt)
  add_to_level-IsLevel (level l i d r) h =
      ground (arith, sign-cases p i.name h.0, add_left-Rises i.name l, add_right-Falls i.name r)
