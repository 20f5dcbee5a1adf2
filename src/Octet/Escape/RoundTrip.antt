-- ===== src/Octet/Escape/RoundTrip.antt =====
-- lib/oct.c: `oct_de_escape` undoes the escaping of `oct2strdup`, with '%' as the escape character.
use spocp.Octet.Escape.Copy.{oct2strdup_lem}
use spocp.Octet.Escape.{
  is_plain, hex_digit, escape, oct2strdup, high_digit, low_digit, de_escape_loop, write_back,
  oct_de_escape,
}
use spocp.Prelude.{
  ℕ, ◌+◌, ◌-◌, ◌/◌, ◌%◌, ◌<◌, Bytes, [], ◌∷◌, ◌++◌, some, true, false, ◌==◌, length, All, ◌≡◌,
  arith, refl, take, ◌≤◌, int_max, int_mod, is_negative, ok, append_assoc, append-nil, inl, inr,
  Bool-cases, length-append, take-append, ap,
}

abbrev pub percent : ℕ
percent = 0x25

-- An octet is below 256.
abbrev pub IsByte : ℕ → Type 0
IsByte c = c < 256

hex_not_percent : (n : ℕ) → hex_digit n == percent ≡ false
unfolding hex_digit
hex_not_percent n = ground arith

hex_pair :
    (c d : ℕ) → IsByte c → low_digit (high_digit d (hex_digit (c / 16))) (hex_digit (c % 16)) ≡ c
unfolding low_digit high_digit hex_digit
hex_pair c d h = ground arith

plain_not_percent : (c : ℕ) → is_plain c ≡ true → c == percent ≡ false
unfolding is_plain
plain_not_percent c h = ground arith

-- A byte that is no escape is copied, whatever follows.
de_escape_loop_plain :
    (ec x : ℕ) (fp : Bytes) (c : ℕ) (out : Bytes) (len : ℕ)
    → x == ec ≡ false
    → de_escape_loop ec (x ∷ fp) c out len ≡ de_escape_loop ec fp c (out ++ (x ∷ [])) len
unfolding de_escape_loop
de_escape_loop_plain ec x [] c out len h = rw h
de_escape_loop_plain ec x (y ∷ []) c out len h = rw h
de_escape_loop_plain ec x (y ∷ z ∷ fp) c out len h = rw h

de_escape_loop_coded :
    (y z : ℕ) (fp : Bytes) (c : ℕ) (out : Bytes) (len : ℕ)
    → y == percent ≡ false
    → de_escape_loop percent (percent ∷ y ∷ z ∷ fp) c out len
      ≡ de_escape_loop percent fp
          (low_digit (high_digit c y) z)
          (out ++ (low_digit (high_digit c y) z ∷ []))
          (len - 2)
unfolding de_escape_loop
de_escape_loop_coded y z fp c out len h = rw h

-- The carried digit and the length count when the escaped bytes `s` are read.
de_escape_loop-escape :
    (s : Bytes) (c : ℕ) (out : Bytes) (len : ℕ)
    → All IsByte s
    → len ≡ length out + length (escape percent s)
    → de_escape_loop percent (escape percent s) c out len ≡ (some (length (out ++ s)), out ++ s)
unfolding escape
de_escape_loop-escape [] c out len h e = rw append-nil (unfold de_escape_loop in ground arith)
de_escape_loop-escape (x ∷ s) c out len h e = elim (Bool-cases (is_plain x)) [
  | inl plain ↦
      let e' = rw plain at e in
      rw (plain, de_escape_loop_plain percent x _ c out len (plain_not_percent x plain))
        (rw
          (de_escape_loop-escape s c (out ++ (x ∷ [])) len h.1
            (omega (arith, e', length-append out (x ∷ []))))
          (rw append_assoc))
  | inr hidden ↦
      let e' = rw hidden at e in
      rw (hidden, de_escape_loop_coded _ _ _ c out len (hex_not_percent (x / 16)), hex_pair x c h.0)
        (rw
          (de_escape_loop-escape s x (out ++ (x ∷ [])) (len - 2) h.1
            (omega (arith, e', length-append out (x ∷ []))))
          (rw append_assoc))
]

take_whole : (t : Bytes) → take (length t) t ≡ t
take_whole [] = refl
take_whole (c ∷ t) = ap (λ (l : Bytes). c ∷ l) (take_whole t)

oct_de_escape_lem :
    (ec : ℕ) (t out : Bytes)
    → de_escape_loop ec t 0 [] (length t) ≡ (some (length out), out)
    → length t ≤ int_max
    → oct_de_escape (some t) ec ≡ ok (some (length out), out)
unfolding oct_de_escape
oct_de_escape_lem ec t out e short =
    let whole : length t % int_mod ≡ length t = omega (arith, short) in
    let here : is_negative (length t) ≡ false = ground (arith, short) in
    rw (whole, here, take_whole t, e) (unfold write_back in rw take-append refl)

-- Bytes, one or more, that `oct2strdup` has escaped with '%' into at most `INT_MAX` bytes are restored by
-- `oct_de_escape`, which returns their number, whatever bytes they hold.
pub oct_de_escape-oct2strdup :
    (c : ℕ) (s : Bytes)
    → All IsByte (c ∷ s)
    → length (escape percent (c ∷ s)) ≤ int_max
    → oct_de_escape (oct2strdup (some (c ∷ s)) percent) percent ≡ ok (some (length (c ∷ s)), c ∷ s)
oct_de_escape-oct2strdup c s h short = rw oct2strdup_lem (
    oct_de_escape_lem percent _ (c ∷ s)
      (de_escape_loop-escape (c ∷ s) 0 [] (length (escape percent (c ∷ s))) h (omega arith)) short)
