-- ===== src/Octet/Escape/Copy.antt =====
-- lib/oct.c: `oct2strdup` and `oct2strcpy` stay within their memory.
use spocp.Octet.Escape.{
  hex_digit, escape_byte, escape, oct2strdup, counted, strdup_size, strcpy_loop, oct2strcpy,
}
use spocp.Prelude.{
  ==_iff, subst, ℕ, ◌+◌, ◌-◌, ◌/◌, ◌%◌, ◌≤◌, Bytes, [], ◌∷◌, ◌++◌, none, some, ltb, ◌==◌,
  if◌then◌else◌, length, ◌≡◌, ◌≢◌, refl, arith, append_assoc, append-nil, inl, inr, Bool-cases, ap,
}

escape_zero : (s : Bytes) → escape 0 s ≡ s
unfolding escape
escape_zero [] = refl
escape_zero (c ∷ s) = ap (λ (l : Bytes). c ∷ l) (escape_zero s)

length-le-escape : (ec : ℕ) (s : Bytes) → length s ≤ length (escape ec s)
unfolding escape
length-le-escape ec [] = omega arith
length-le-escape ec (c ∷ s) = ground (arith, length-le-escape ec s)

counted_bound : (ec : ℕ) (s : Bytes) (n : ℕ) → ec ≢ 0 → length (escape ec s) + n ≤ counted s n
unfolding escape counted
counted_bound ec [] n h = omega arith
counted_bound ec (c ∷ s) n h =
    ground (arith, counted_bound ec s (n + 1) h, counted_bound ec s (n + 4) h)

pub oct2strdup_lem :
    (c : ℕ) (s : Bytes) (ec : ℕ) → oct2strdup (some (c ∷ s)) ec ≡ some (escape ec (c ∷ s))
unfolding oct2strdup
oct2strdup_lem c s ec = refl

escape_fits : (ec : ℕ) (op : Bytes) → length (escape ec op) + 1 ≤ strdup_size op ec
escape_fits ec op = elim (Bool-cases (ec == 0)) [
  | inl plain ↦
      let z = (==_iff ec 0).0 plain in rw (z, escape_zero) (unfold strdup_size in omega arith)
  | inr some_ec ↦
      unfold strdup_size in rw some_ec (omega (arith, counted_bound ec op 1 (ground arith)))
]

-- The string that `oct2strdup` writes fits in the memory that it allocates, with its final 0.
pub oct2strdup_fits :
    (op s : Bytes) (ec : ℕ) → oct2strdup (some op) ec ≡ some s → length s + 1 ≤ strdup_size op ec
oct2strdup_fits [] s ec h = absurd (unfold oct2strdup in cc)
oct2strdup_fits (c ∷ op) s ec h =
    let e : escape ec (c ∷ op) ≡ s = cc (oct2strdup_lem c op ec, h) in
    subst (λ (t : Bytes). length t + 1 ≤ strdup_size (c ∷ op) ec) e (escape_fits ec (c ∷ op))

strcpy_loop_lem :
    (ec room : ℕ) (s out : Bytes)
    → ec ≢ 0
    → strcpy_loop ec room s out
      ≡ (if ltb (length (escape ec s)) room then some (out ++ escape ec s) else none)
unfolding strcpy_loop escape
strcpy_loop_lem ec room [] out h = rw append-nil (ground arith)
strcpy_loop_lem ec room (c ∷ s) out h =
    unfold escape_byte in
    ground (
      arith,
      strcpy_loop_lem ec (room - 1) s (out ++ (c ∷ [])) h,
      strcpy_loop_lem ec (room - 3) s (out ++ (ec ∷ hex_digit (c / 16) ∷ hex_digit (c % 16) ∷ []))
          h,
      append_assoc out (c ∷ []) (escape ec s),
      append_assoc out (ec ∷ hex_digit (c / 16) ∷ hex_digit (c % 16) ∷ []) (escape ec s),
    )

-- On octets that are not empty, `oct2strcpy` succeeds exactly if its memory of `len` bytes holds the escaped string and a final 0.
-- It writes the string of `oct2strdup`, and returns the length of the octets, not of the string.
pub oct2strcpy_lem :
    (c : ℕ) (op : Bytes) (len ec : ℕ)
    → oct2strcpy (c ∷ op) len ec ≡ (
        if ltb (length (escape ec (c ∷ op))) len
        then some (length (c ∷ op), escape ec (c ∷ op))
        else none)
unfolding oct2strcpy
oct2strcpy_lem c op len ec = elim (Bool-cases (ec == 0)) [
  | inl plain ↦ let z = (==_iff ec 0).0 plain in rw (z, escape_zero) (ground arith)
  | inr some_ec ↦
      rw (some_ec, strcpy_loop_lem ec len (c ∷ op) [] (ground arith))
        (ground (arith, length-le-escape ec (c ∷ op)))
]
