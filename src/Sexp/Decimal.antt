-- ===== src/Sexp/Decimal.antt =====
-- lib/sexp.c: the loop of `get_len` reads back a number that `sprintf` has written.
use mathlib.Core.List.{reverse}
use native.Mathlib.Nat.{mod-eq_of_lt}
use spocp.Octet.Number.Value.{IsDigit, value, value_lem, mul_mod, little}
use spocp.Prelude.{
  ℕ, zero, suc, ◌+◌, ◌-◌, ◌*◌, ◌/◌, ◌%◌, ◌^◌, ◌<◌, Bytes, [], ◌∷◌, ◌++◌, true, false, ltb, length,
  All, All-append, int_mod, ◌≡◌, refl, ◌∙◌, arith, Bool-cases, inl, inr,
}
use spocp.Sexp.{is_digit, len_loop}

unfoldable pub decimal_loop : ℕ → ℕ → Bytes
decimal_loop zero n = []
decimal_loop (suc fuel) n = elim (ltb n 10) [
  | true ↦ (b'0' + n) ∷ []
  | false ↦ decimal_loop fuel (n / 10) ++ ((b'0' + n % 10) ∷ [])
]

-- What `sprintf` writes for `%u`, and for `%d` of a number that is not negative.
unfoldable pub decimal : ℕ → Bytes
unfolding decimal_loop
decimal n = decimal_loop (suc n) n

value-append : (s : Bytes) (n c : ℕ) → value n (s ++ (c ∷ [])) ≡ value n s * 10 + (c - b'0')
value-append [] n c = refl
value-append (x ∷ s) n c = value-append s (n * 10 + (x - b'0')) c

decimal_loop_lem :
    (fuel n : ℕ)
    → n < fuel
    → All IsDigit (decimal_loop fuel n) × (value 0 (decimal_loop fuel n) ≡ n)
unfolding decimal_loop
decimal_loop_lem zero n h = absurd (omega arith)
decimal_loop_lem (suc fuel) n h = elim (Bool-cases (ltb n 10)) [
  | inl small ↦ rw (small, decimal_loop) (ground arith)
  | inr large ↦
      let ih = decimal_loop_lem fuel (n / 10) (ground arith) in
      rw (large, decimal_loop)
        (
          All-append IsDigit (decimal_loop fuel (n / 10)) _ ih.0 (omega arith),
          value-append (decimal_loop fuel (n / 10)) 0 _ ∙ omega (arith, ih.1),
        )
]

pub decimal-IsDigit : (n : ℕ) → All IsDigit (decimal n)
unfolding decimal
decimal-IsDigit n = (decimal_loop_lem (suc n) n (omega arith)).0

pub value-decimal : (n : ℕ) → value 0 (decimal n) ≡ n
unfolding decimal
value-decimal n = (decimal_loop_lem (suc n) n (omega arith)).1

digit_reads : (c : ℕ) → IsDigit c → is_digit c ≡ true
digit_reads c h = ground arith

pub value-mod : (n : ℕ) (s : Bytes) → value (n % int_mod) s % int_mod ≡ value n s % int_mod
value-mod n s =
    rw (value_lem (n % int_mod) s, value_lem n s)
      (omega (arith, mul_mod (little (reverse s)) (10 ^ length s) n int_mod))

pub len_loop-append :
    (s : Bytes) (n c : ℕ) (rest : Bytes)
    → All IsDigit s
    → is_digit c ≡ false
    → n < int_mod
    → len_loop (s ++ (c ∷ rest)) n ≡ (value n s % int_mod, c ∷ rest)
unfolding len_loop
len_loop-append [] n c rest h stop lt = rw (stop, mod-eq_of_lt lt)
len_loop-append (x ∷ s) n c rest h stop lt =
    let m = n * 10 + (x - b'0') in
    rw (
      digit_reads x h.0,
      len_loop-append s (m % int_mod) c rest h.1 stop (omega arith),
      value-mod m s,
    )

-- The digits of a number below 2 ^ 32, up to a byte that is none, are read as the number.
pub len_loop-decimal :
    (n c : ℕ) (rest : Bytes)
    → n < int_mod
    → is_digit c ≡ false
    → len_loop (decimal n ++ (c ∷ rest)) 0 ≡ (n, c ∷ rest)
len_loop-decimal n c rest lt stop =
    len_loop-append (decimal n) 0 c rest (decimal-IsDigit n) stop (omega arith)
    ∙ rw (value-decimal, mod-eq_of_lt lt)
