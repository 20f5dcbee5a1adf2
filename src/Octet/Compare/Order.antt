-- ===== src/Octet/Compare/Order.antt =====
-- lib/oct.c: the sign of `octcmp` and of `oct2strcmp` is the lexicographic order of byte strings.
use native.Mathlib.Nat.{suc-min-suc}
use spocp.Prelude.{
  ℕ, ◌<◌, ◌≤◌, Bytes, [], ◌∷◌, some, true, ◌==◌, ltb, if◌then◌else◌, length, minus_one, is_negative,
  is_positive, int_max, ◌≡◌, refl, ◌⊎◌, ◌≢◌, subst, sym, inl, inr, arith,
}
use spocp.Octet.Compare.{memcmp, octcmp, oct2strcmp, compare_string}

-- `a` comes before `b`: it is a proper prefix, or smaller at the first byte that differs.
abbrev pub LexLt : Bytes → Bytes → Type 0
LexLt a [] = ⊥
LexLt [] (y ∷ b) = Unit
LexLt (x ∷ a) (y ∷ b) = (x < y) ⊎ (x ≡ y) × LexLt a b

-- What a result of a comparison says.
abbrev pub Says : ℕ → Bytes → Bytes → Type 0
Says r a b =
    (r ≡ 0) × (a ≡ b) ⊎ (is_negative r ≡ true) × LexLt a b ⊎ (is_positive r ≡ true) × LexLt b a

octcmp_step :
    (x y : ℕ) (a b : Bytes)
    → octcmp (some (x ∷ a)) (some (y ∷ b))
      ≡ (if x == y then octcmp (some a) (some b) else if ltb x y then minus_one else 1)
unfolding octcmp
octcmp_step x y a b = rw suc-min-suc (unfold memcmp in ground arith)

-- The result of `octcmp` is 0 on equal octets, and otherwise its sign is their lexicographic order,
-- for octets of at most `INT_MAX` bytes.
pub octcmp-Says :
    (a b : Bytes) → length a ≤ int_max → length b ≤ int_max → Says (octcmp (some a) (some b)) a b
octcmp-Says [] [] h k = inl (unfold octcmp memcmp in refl, refl)
octcmp-Says [] (y ∷ b) h k = inr (inl (unfold octcmp memcmp in ground arith, tt))
octcmp-Says (x ∷ a) [] h k = inr (inr (unfold octcmp memcmp in ground arith, tt))
octcmp-Says (x ∷ a) (y ∷ b) h k =
    rw octcmp_step (ground (arith, octcmp-Says a b (omega arith) (omega arith)))

compare_string_step :
    (x y : ℕ) (o s : Bytes)
    → compare_string (x ∷ o) (y ∷ s)
      ≡ (if y == x then compare_string o s else if ltb y x then minus_one else 1)
unfolding compare_string memcmp
compare_string_step x y o s = ground arith

compare_string-Says : (o s : Bytes) → Says (compare_string o s) s o
compare_string-Says [] [] = inl (unfold compare_string memcmp in refl, refl)
compare_string-Says [] (y ∷ s) = inr (inr (unfold compare_string memcmp in ground arith, tt))
compare_string-Says (x ∷ o) [] = inr (inl (unfold compare_string memcmp in ground arith, tt))
compare_string-Says (x ∷ o) (y ∷ s) =
    rw compare_string_step (ground (arith, compare_string-Says o s))

-- The result of `oct2strcmp` on a string that is not empty is 0 if the octets are the string, and
-- otherwise its sign is that of the string against the octets.
pub oct2strcmp-Says : (o s : Bytes) → s ≢ [] → Says (oct2strcmp (some o) (some s)) s o
unfolding oct2strcmp
oct2strcmp-Says o [] h = absurd (h refl)
oct2strcmp-Says o (c ∷ s) h = compare_string-Says o (c ∷ s)

pub LexLt-asymm : (a b : Bytes) → LexLt a b → LexLt b a → ⊥
LexLt-asymm a [] h k = h
LexLt-asymm [] (y ∷ b) h k = k
LexLt-asymm (x ∷ a) (y ∷ b) (inl h) (inl k) = absurd (omega arith)
LexLt-asymm (x ∷ a) (y ∷ b) (inl h) (inr k) = absurd (omega arith)
LexLt-asymm (x ∷ a) (y ∷ b) (inr h) (inl k) = absurd (omega arith)
LexLt-asymm (x ∷ a) (y ∷ b) (inr h) (inr k) = LexLt-asymm a b h.1 k.1

pub LexLt-irrefl : (a b : Bytes) → a ≡ b → LexLt a b → ⊥
LexLt-irrefl a b e h =
    LexLt-asymm a b h (subst (λ t. LexLt t a) e (subst (λ t. LexLt a t) (sym e) h))
