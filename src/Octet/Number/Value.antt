-- ===== src/Octet/Number/Value.antt =====
-- lib/oct.c: what `octtoi` returns on a string of digits.
use mathlib.Core.List.{reverse, reverse-cons}
use native.Mathlib.Nat.{
  add-mul-mod_self_right, div-add-mod', mul_assoc, pow-succ', pow-le-pow_right,
}
use spocp.Octet.Compare.Order.{LexLt, Says, oct2strcmp-Says}
use spocp.Octet.Compare.{oct2strcmp}
use spocp.Octet.Number.{octtoi_loop, octtoi}
use spocp.Prelude.{
  subst, ℕ, ◌+◌, ◌-◌, ◌*◌, ◌/◌, ◌%◌, ◌^◌, ◌<◌, ◌≤◌, Bytes, [], ◌∷◌, ◌++◌, some, false, ◌||◌, ltb,
  if◌then◌else◌, length, All, All-append, int_mod, int_max, minus_one, is_positive, codes, ◌≡◌,
  refl, ◌∙◌, sym, ap, arith, inl, inr, length-append,
}

abbrev pub IsDigit : ℕ → Type 0
IsDigit c = (b'0' ≤ c) × (c ≤ b'9')

-- The number that digits spell behind `n`.
abbrev pub value : ℕ → Bytes → ℕ
value n [] = n
value n (c ∷ s) = value (n * 10 + (c - b'0')) s

-- The number that digits spell from the last to the first.
pub little : Bytes → ℕ
little [] = 0
little (c ∷ s) = c - b'0' + 10 * little s

little-append : (s : Bytes) (c : ℕ) → little (s ++ (c ∷ [])) ≡ little s + 10 ^ length s * (c - b'0')
unfolding little
little-append [] c = omega arith
little-append (x ∷ s) c = omega (
  arith,
  little-append s c,
  pow-succ' 10 (length s),
  ap (λ (p : ℕ). p * (c - b'0')) (pow-succ' 10 (length s)),
  mul_assoc 10 (10 ^ length s) (c - b'0'),
)

-- A factor may be reduced before it is multiplied.
pub mul_mod : (r c d m : ℕ) → (r + c * (d % m)) % m ≡ (r + c * d) % m
mul_mod r c d m =
    let split : r + c * d ≡ r + c * (d % m) + c * (d / m) * m =
      omega (arith, ap (λ (t : ℕ). c * t) (div-add-mod' d m), mul_assoc c (d / m) m) in
    sym (rw split (add-mul-mod_self_right (r + c * (d % m)) (c * (d / m)) m))

digit_passes : (c : ℕ) → IsDigit c → (ltb c b'0' || ltb b'9' c) ≡ false
digit_passes c h = ground arith

octtoi_loop_lem :
    (s : Bytes) (r d : ℕ)
    → All IsDigit s
    → r < int_mod
    → octtoi_loop s r (d % int_mod) ≡ (r + d * little s) % int_mod
unfolding octtoi_loop little
octtoi_loop_lem [] r d h lt = omega arith
octtoi_loop_lem (c ∷ s) r d h lt =
    let a = c - b'0' in
    let ih = octtoi_loop_lem s ((r + a * (d % int_mod)) % int_mod) (d * 10) h.1 (omega arith) in
    let tens : d % int_mod * 10 % int_mod ≡ d * 10 % int_mod = omega arith in
    let join = mul_mod (r + d * 10 * little s) a d int_mod in
    rw (digit_passes c h.0, tens, ih) (omega (arith, join))

length-reverse : (s : Bytes) → length (reverse s) ≡ length s
length-reverse [] = refl
length-reverse (c ∷ s) =
    rw (reverse-cons c s, length-append (reverse s) (c ∷ [])) (omega (arith, length-reverse s))

reverse-IsDigit : (s : Bytes) → All IsDigit s → All IsDigit (reverse s)
reverse-IsDigit [] h = tt
reverse-IsDigit (c ∷ s) h =
    rw reverse-cons (All-append IsDigit (reverse s) (c ∷ []) (reverse-IsDigit s h.1) (h.0, tt))

regroup : (n a p q l : ℕ) → q ≡ 10 * p → (n * 10 + a) * p + l ≡ n * q + (l + p * a)
regroup n a p q l e = rw e (omega arith)

pub value_lem : (n : ℕ) (s : Bytes) → value n s ≡ n * 10 ^ length s + little (reverse s)
unfolding little
value_lem n [] = omega arith
value_lem n (c ∷ s) =
    let p = 10 ^ length s in
    rw
      (
        reverse-cons c s,
        little-append (reverse s) c,
        length-reverse,
        value_lem (n * 10 + (c - b'0')) s,
      )
      (regroup n (c - b'0') p _ (little (reverse s)) (pow-succ' 10 (length s)))

little_bound : (s : Bytes) → All IsDigit s → little s < 10 ^ length s
unfolding little
little_bound [] h = omega arith
little_bound (c ∷ s) h = omega (arith, h.0.0, h.0.1, little_bound s h.1, pow-succ' 10 (length s))

value_bound : (s : Bytes) → All IsDigit s → value 0 s < 10 ^ length s
value_bound s h = omega (
  arith,
  value_lem 0 s,
  little_bound (reverse s) (reverse-IsDigit s h),
  ap (λ (k : ℕ). 10 ^ k) (length-reverse s),
)

pow_bound : (n : ℕ) → n ≤ 9 → 10 ^ n ≤ 1_000_000_000
pow_bound n h = pow-le-pow_right (omega arith) h

loop_value : (s : Bytes) → All IsDigit s → octtoi_loop (reverse s) 0 1 ≡ value 0 s % int_mod
loop_value s h =
    octtoi_loop_lem (reverse s) 0 1 (reverse-IsDigit s h) (omega arith)
    ∙ ap (λ (t : ℕ). t % int_mod) (omega (arith, value_lem 0 s))

gap : (m k p l r : ℕ) → m < k → l < p → m * p + l < k * p + r
gap m k p l r h b = grind arith

-- On two strings of as many digits the lexicographic order is that of their values.
value_mono :
    (n : ℕ) (a b : Bytes)
    → All IsDigit a
    → All IsDigit b
    → length a ≡ length b
    → LexLt a b
    → value n a < value n b
value_mono n [] [] ha hb e lt = elim lt [ ]
value_mono n (x ∷ a) [] ha hb e lt = elim lt [ ]
value_mono n [] (y ∷ b) ha hb e lt = absurd (omega arith)
value_mono n (x ∷ a) (y ∷ b) ha hb e (inr (same, lt)) =
    rw same (value_mono (n * 10 + (y - b'0')) a b ha.1 hb.1 (omega arith) lt)
value_mono n (x ∷ a) (y ∷ b) ha hb e (inl lt) =
    let p = 10 ^ length b in
    let bound =
      subst (λ (k : ℕ). little (reverse a) < 10 ^ k) (length-reverse a)
        (little_bound (reverse a) (reverse-IsDigit a ha.1)) in
    let same : 10 ^ length a ≡ p = ap (λ (k : ℕ). 10 ^ k) (omega arith) in
    rw (value_lem _ a, value_lem _ b, same)
      (gap _ _ p _ _ (omega (arith, ha.0.0)) (subst (λ (k : ℕ). little (reverse a) < k) same bound))

-- Up to nine digits are read as the number that they spell.
pub octtoi_short : (s : Bytes) → All IsDigit s → length s ≤ 9 → octtoi s ≡ value 0 s
unfolding octtoi
octtoi_short s h short = ground (arith, loop_value s h, value_bound s h, pow_bound (length s) short)

abbrev limit_digits : Bytes
limit_digits = codes "2147483647"

ten_order :
    (s : Bytes)
    → All IsDigit s
    → length s ≡ 10
    → is_positive (oct2strcmp (some s) (some limit_digits)) ≡ ltb (value 0 s) int_max
ten_order s h ten = order (oct2strcmp-Says s limit_digits (cc))
  where
    order :
        Says (oct2strcmp (some s) (some limit_digits)) limit_digits s
        → is_positive (oct2strcmp (some s) (some limit_digits)) ≡ ltb (value 0 s) int_max
    order (inl (z, same)) = rw (z, ← same)
    order (inr (inl (neg, lt))) =
        ground (arith, value_mono 0 limit_digits s (omega arith) h (omega arith) lt)
    order (inr (inr (pos, lt))) =
        ground (arith, value_mono 0 s limit_digits h (omega arith) (omega arith) lt)

-- Ten digits: those below `INT_MAX` are refused, and the others are read modulo 2 ^ 32.
pub octtoi_ten :
    (s : Bytes)
    → All IsDigit s
    → length s ≡ 10
    → octtoi s ≡ (if ltb (value 0 s) int_max then minus_one else value 0 s % int_mod)
unfolding octtoi
octtoi_ten s h ten = rw (ten_order s h ten) (ground (arith, loop_value s h))
