-- ===== src/Range/Order.antt =====
-- lib/input.c: which ranges with two limits `is_valid_range` accepts.
use spocp.Octet.Compare.Order.{LexLt, Says, octcmp-Says, LexLt-asymm, LexLt-irrefl}
use spocp.Octet.Compare.{octcmp}
use spocp.Prelude.{
  ℕ, ◌+◌, ◌<◌, ◌≤◌, Bytes, Bool, true, ◌||◌, length, int_mod, int_max, some, ◌≡◌, refl, sym, arith,
  ◌↔◌, ◌⊎◌, inl, inr, is_negative, ◌==◌, not, ◌&&◌,
}
use spocp.Range.{
  RangeType, ipv4, numeric, alpha, Value, num, address, octets, SpocpRange, valuecmp,
  is_valid_range,
}

-- A range with both limits; the flags say whether a limit itself is inside.
abbrev pub between : RangeType → Value → Bool → Value → Bool → SpocpRange
between t l le u ue = record {
  type_of = t;
  lower = record { bound = true; equal = le; value = l };
  upper = record { bound = true; equal = ue; value = u };
}

-- A range of numbers below 2 ^ 31 is valid exactly if its lower limit is below its upper one, or the
-- two are equal and one of them is inside.
pub numeric-is_valid_range :
    (l u : ℕ) (le ue : Bool)
    → l ≤ int_max
    → u ≤ int_max
    → (is_valid_range (between numeric (num l) le (num u) ue) ≡ true)
      ↔ ((l < u) ⊎ (l ≡ u) × ((le || ue) ≡ true))
unfolding is_valid_range valuecmp
numeric-is_valid_range l u le ue hl hu = (λ h. ground arith, λ h. ground arith)

-- A range of IPv4 addresses is valid exactly if its lower limit is below its upper one by less than
-- 2 ^ 31, or is above it by more than 2 ^ 31, or the two are equal and one of them is inside.
pub ipv4-is_valid_range :
    (l u : ℕ) (le ue : Bool)
    → l < int_mod
    → u < int_mod
    → (is_valid_range (between ipv4 (address l) le (address u) ue) ≡ true)
      ↔ ((l < u) × (u < l + 2147483648) ⊎ (u + 2147483648 < l) ⊎ (l ≡ u) × ((le || ue) ≡ true))
unfolding is_valid_range valuecmp
ipv4-is_valid_range l u le ue hl hu = (λ h. ground arith, λ h. ground arith)

valid_of_sign :
    (l u : Bytes) (le ue : Bool)
    → is_valid_range (between alpha (octets l) le (octets u) ue) ≡ (
        let c = octcmp (some u) (some l) in
        not (is_negative c) && not (c == 0 && (not ue && not le)))
unfolding is_valid_range valuecmp
valid_of_sign l u le ue = refl

abbrev Allowed : Bytes → Bytes → Bool → Bool → Type 0
Allowed l u le ue = LexLt l u ⊎ (l ≡ u) × ((le || ue) ≡ true)

-- The verdict that follows from the sign `c` of the upper limit against the lower one.
abbrev verdict : ℕ → Bool → Bool → Bool
verdict c le ue = not (is_negative c) && not (c == 0 && (not ue && not le))

verdict_iff :
    (l u : Bytes) (le ue : Bool) (c : ℕ) → Says c u l → (verdict c le ue ≡ true) ↔ Allowed l u le ue
verdict_iff l u le ue c (inl (z, same)) = (
  λ h. inr (sym same, ground arith),
  λ a. elim a [ inl lt ↦ absurd (LexLt-irrefl l u (sym same) lt) | inr both ↦ ground arith ],
)
verdict_iff l u le ue c (inr (inl (neg, lt))) = (
  λ h. ground arith,
  λ a. elim a [
    | inl other ↦ absurd (LexLt-asymm l u other lt)
    | inr both ↦ absurd (LexLt-irrefl u l (sym both.0) lt)
  ],
)
verdict_iff l u le ue c (inr (inr (pos, lt))) = (λ h. inl lt, λ a. ground arith)

-- A range of octet strings of at most `INT_MAX` bytes is valid exactly if its lower limit comes
-- before its upper one in the lexicographic order, or the two are equal and one of them is inside.
pub alpha-is_valid_range :
    (l u : Bytes) (le ue : Bool)
    → length l ≤ int_max
    → length u ≤ int_max
    → (is_valid_range (between alpha (octets l) le (octets u) ue) ≡ true)
      ↔ (LexLt l u ⊎ (l ≡ u) × ((le || ue) ≡ true))
alpha-is_valid_range l u le ue hl hu =
    rw valid_of_sign (verdict_iff l u le ue _ (octcmp-Says u l hu hl))
