-- ===== src/Sexp/Token.antt =====
-- lib/sexp.c: `get_str` takes back an atom that was written in canonical form.
use mathlib.Core.List.{cons-ne-nil}
use spocp.Prelude.{
  ℕ, ◌+◌, ◌-◌, ◌*◌, ◌%◌, ◌<◌, ◌≤◌, Bytes, [], ◌∷◌, ◌++◌, ltb, ◌==◌, ◌≢◌, length, take, drop,
  int_mod, int_max, Result, Code, ok, err, missing_char, syntax_error, length-take, length-drop,
  ◌≡◌, refl, ◌∙◌, ap, arith, length-append, append_assoc, take-append, drop-append, ◌⊎◌, inl, inr,
  Bool-cases,
}
use spocp.Sexp.Decimal.{decimal, len_loop-decimal}
use spocp.Sexp.{len_loop, len_end, get_len, to_size, Piece, piece, runaway, get_str_at, get_str}

-- An atom in canonical form: its length, a colon, and its bytes.
abbrev pub canonical : Bytes → Bytes
canonical s = decimal (length s) ++ (b':' ∷ s)

-- An atom that can be written and read back: the parser refuses the empty one, and the length is
-- read into an `int`.
pub record IsAtom (s : Bytes) : Type 0 where
  pub not_empty : 0 < length s
  pub fits : length s ≤ int_max

pub get_len_lem :
    (o : Bytes) (n : ℕ) (sp : Bytes) → o ≢ [] → len_loop o 0 ≡ (n, sp) → get_len o ≡ len_end n sp
unfolding get_len
get_len_lem [] n sp h e = absurd (h refl)
get_len_lem (c ∷ o) n sp h e = ap (λ (p : ℕ × Bytes). len_end p.0 p.1) e

snoc-ne-nil : (s : Bytes) (c : ℕ) (rest : Bytes) → s ++ (c ∷ rest) ≢ []
snoc-ne-nil [] c rest e = cc
snoc-ne-nil (x ∷ s) c rest e = cc

get_len-canonical :
    (n : ℕ) (rest : Bytes)
    → 0 < n
    → n ≤ int_max
    → get_len (decimal n ++ (b':' ∷ rest)) ≡ ok (n, b':' ∷ rest)
get_len-canonical n rest pos fits =
    get_len_lem _ n (b':' ∷ rest) (snoc-ne-nil (decimal n) b':' rest)
      (len_loop-decimal n b':' rest (omega arith) refl)
    ∙ unfold len_end in ground arith

get_str_at-canonical :
    (so s rest : Bytes)
    → IsAtom s
    → get_str_at so (ok (length s, b':' ∷ (s ++ rest))) ≡ ok (piece s, rest)
unfolding get_str_at
get_str_at-canonical so s rest a =
    let small : to_size (length s) ≡ length s = ground (arith, a.fits) in
    rw small
      (ground (arith, a.not_empty, length-append s rest, take-append s rest, drop-append s rest))

-- `get_str` reads an atom in canonical form, of one to `INT_MAX` bytes, whatever follows it: it hands
-- out the atom's bytes and leaves the rest of the text.
pub get_str-canonical :
    (s rest : Bytes) → IsAtom s → get_str (canonical s ++ rest) ≡ ok (piece s, rest)
unfolding get_str
get_str-canonical s rest a =
    ap (get_str_at (canonical s ++ rest)) (
      ap get_len (append_assoc (decimal (length s)) (b':' ∷ s) rest)
      ∙ get_len-canonical (length s) (s ++ rest) a.not_empty a.fits)
    ∙ get_str_at-canonical (canonical s ++ rest) s rest a

len_loop_rest : (s : Bytes) (n : ℕ) → length (len_loop s n).1 ≤ length s
unfolding len_loop
len_loop_rest [] n = omega arith
len_loop_rest (c ∷ s) n = ground (arith, len_loop_rest s ((n * 10 + (c - b'0')) % int_mod))

len_loop_advances :
    (c : ℕ) (s : Bytes) → ((len_loop (c ∷ s) 0).0 ≡ 0) ⊎ (length (len_loop (c ∷ s) 0).1 ≤ length s)
unfolding len_loop
len_loop_advances c s = ground (arith, len_loop_rest s ((0 * 10 + (c - b'0')) % int_mod))

-- `get_len` returns a number, which is not 0, and the text from the colon on; or it fails.
abbrev LenOutcome : ℕ → Result (ℕ × Bytes) → Type 0
LenOutcome bound r =
    ((n : ℕ) × (sp : Bytes) × (r ≡ ok (n, b':' ∷ sp)) × (n ≢ 0) × (length sp + 1 ≤ bound))
    ⊎ ((e : Code) × (r ≡ err e))

len_end-LenOutcome :
    (bound n : ℕ) (sp : Bytes) → (n ≡ 0) ⊎ (length sp ≤ bound) → LenOutcome bound (len_end n sp)
unfolding len_end
len_end-LenOutcome bound n [] h = elim (Bool-cases (n == 0)) [
  | inl z ↦ inr (syntax_error, rw z)
  | inr some_n ↦ inr (missing_char, rw some_n)
]
len_end-LenOutcome bound n (c ∷ sp) h = elim (Bool-cases (n == 0)) [
  | inl z ↦ inr (syntax_error, rw z)
  | inr some_n ↦ elim (Bool-cases (c == b':')) [
    | inl colon ↦ inl (n, sp, ground arith, ground arith, ground arith)
    | inr other ↦ inr (syntax_error, rw (some_n, other))
  ]
]

get_len_outcomes : (c : ℕ) (so : Bytes) → LenOutcome (length so) (get_len (c ∷ so))
get_len_outcomes c so =
    rw (get_len_lem (c ∷ so) _ _ (cons-ne-nil c so) refl)
      (len_end-LenOutcome (length so) _ _ (len_loop_advances c so))

-- `get_str` fails with `SPOCP_MISSING_CHAR`, or hands out an atom and leaves a shorter rest.
abbrev pub StrOutcome : ℕ → Result (Piece × Bytes) → Type 0
StrOutcome bound r =
    (r ≡ err missing_char)
    ⊎ ((s : Bytes) × (rest : Bytes) × (r ≡ ok (piece s, rest))
        × (0 < length s)
        × (length s + length rest + 2 ≤ bound))

get_str_at-StrOutcome :
    (c : ℕ) (so : Bytes) (r : Result (ℕ × Bytes))
    → LenOutcome (length so) r
    → StrOutcome (length (c ∷ so)) (get_str_at (c ∷ so) r)
get_str_at-StrOutcome c so r (inr (e, failed)) = rw failed (inl (unfold get_str_at in refl))
get_str_at-StrOutcome c so r (inl (n, sp, read, pos, shorter)) =
    let l = to_size n in
    rw read (elim (Bool-cases (ltb (length (b':' ∷ sp) - 1) l)) [
      | inl long ↦ inl (unfold get_str_at in rw long)
      | inr fits ↦
          let within : l ≤ length sp = ground (arith, fits) in
          let some_l : 0 < l = ground (arith, pos) in
          inr (
            take l sp,
            drop l sp,
            unfold get_str_at in ground arith,
            rw (length-take l sp within) some_l,
            omega (arith, length-take l sp within, length-drop l sp, within),
          )
    ])

-- On a text that is not empty, `get_str` fails with `SPOCP_MISSING_CHAR` and with no other code,
-- whatever is wrong with the text; or it hands out an atom that is not empty, and leaves a rest that
-- is shorter than the text by the atom, its colon and a digit at least.
pub get_str_outcomes :
    (c : ℕ) (so : Bytes)
    → (get_str (c ∷ so) ≡ err missing_char)
      ⊎ ((s : Bytes) × (rest : Bytes) × (get_str (c ∷ so) ≡ ok (piece s, rest))
          × (0 < length s)
          × (length s + length rest + 2 ≤ length (c ∷ so)))
get_str_outcomes c so =
    unfold get_str in get_str_at-StrOutcome c so (get_len (c ∷ so)) (get_len_outcomes c so)

pub get_str-nil : get_str [] ≡ ok (runaway, [])
unfolding get_str get_str_at get_len
get_str-nil = refl
