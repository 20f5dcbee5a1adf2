-- ===== src/Sexp/Frame.antt =====
-- lib/sexp.c: `sexp_len` ends on every text, and finds the end of a canonical list.
use spocp.Octet.Number.Value.{IsDigit}
use spocp.Prelude.{
  ==_iff, ℕ, zero, suc, ◌+◌, ◌-◌, ◌%◌, ◌<◌, ◌≤◌, Bytes, [], ◌∷◌, ◌++◌, false, ◌==◌, ◌≢◌,
  if◌then◌else◌, length, int_mod, int_max, minus_one, Result, ok, ◌≡◌, refl, ◌∙◌, ap, subst, arith,
  length-append, append_assoc, ◌⊎◌, inl, inr, Bool-cases,
}
use spocp.Sexp.Canon.{
  Canon, Canons, atom, list, nil, cons, encode, encodes, IsCanon, AreCanon, canonical_head,
}
use spocp.Sexp.Decimal.{decimal}
use spocp.Sexp.Token.{IsAtom, canonical, get_str-canonical, StrOutcome, get_str_outcomes}
use spocp.Sexp.{piece, get_str, sexp_loop, sexp_len}

-- More fuel than the rest has bytes changes nothing.
sexp_loop_fuel :
    (f g total : ℕ) (oct : Bytes) (depth : ℕ)
    → length oct < f
    → length oct < g
    → sexp_loop f total oct depth ≡ sexp_loop g total oct depth
unfolding sexp_loop
sexp_loop_fuel zero g total oct depth hf hg = absurd (omega arith)
sexp_loop_fuel (suc f) zero total oct depth hf hg = absurd (omega arith)
sexp_loop_fuel (suc f) (suc g) total [] depth hf hg = refl
sexp_loop_fuel (suc f) (suc g) total (c ∷ oct) depth hf hg =
    at_atom (sexp_loop_fuel f g total) (get_str_outcomes c oct)
  where
    at_atom :
        ((o : Bytes) (d : ℕ)
          → length o < f
          → length o < g
          → sexp_loop f total o d ≡ sexp_loop g total o d)
        → StrOutcome (length (c ∷ oct)) (get_str (c ∷ oct))
        → sexp_loop (suc f) total (c ∷ oct) depth ≡ sexp_loop (suc g) total (c ∷ oct) depth
    at_atom same (inl e) = rw (
      e,
      same oct (depth + 1) (omega arith) (omega arith),
      same oct (depth - 1) (omega arith) (omega arith),
    )
    at_atom same (inr (s, rest, e, pos, shorter)) = rw (
      e,
      same oct (depth + 1) (omega arith) (omega arith),
      same oct (depth - 1) (omega arith) (omega arith),
      same rest depth (omega arith) (omega arith),
    )

-- The loop with fuel that is enough.
abbrev scan : ℕ → Bytes → ℕ → Result ℕ
scan total oct depth = sexp_loop (suc (length oct)) total oct depth

digit_no_bracket : (c : ℕ) → IsDigit c → (c == b'(' ≡ false) × (c == b')' ≡ false)
digit_no_bracket c h = (ground arith, ground arith)

step_atom :
    (f total c : ℕ) (oct s rest : Bytes) (depth : ℕ)
    → IsDigit c
    → get_str (c ∷ oct) ≡ ok (piece s, rest)
    → sexp_loop (suc f) total (c ∷ oct) depth ≡ sexp_loop f total rest depth
unfolding sexp_loop
step_atom f total c oct s rest depth h e =
    rw ((digit_no_bracket c h).0, (digit_no_bracket c h).1, e)

step_open :
    (f total : ℕ) (oct : Bytes) (depth : ℕ)
    → sexp_loop (suc f) total (b'(' ∷ oct) depth ≡ sexp_loop f total oct (depth + 1)
unfolding sexp_loop
step_open f total oct depth = refl

step_close :
    (f total : ℕ) (oct : Bytes) (depth : ℕ)
    → sexp_loop (suc f) total (b')' ∷ oct) depth ≡ (
        if depth == 0
        then ok ((total - length oct) % int_mod)
        else sexp_loop f total oct (depth - 1))
unfolding sexp_loop
step_close f total oct depth = refl

scan_close :
    (total : ℕ) (rest : Bytes) (depth : ℕ)
    → scan total (b')' ∷ rest) (depth + 1) ≡ scan total rest depth
scan_close total rest depth =
    let nested : (depth + 1) == 0 ≡ false = ground arith in
    let back : depth + 1 - 1 ≡ depth = omega arith in
    step_close (suc (length rest)) total rest (depth + 1) ∙ rw (nested, back)

scan_atom :
    (total : ℕ) (s rest : Bytes) (depth : ℕ)
    → IsAtom s
    → scan total (canonical s ++ rest) depth ≡ scan total rest depth
scan_atom total s rest depth a =
    let (c, oct, e, digit) = canonical_head s rest a in
    let read = subst (λ t. get_str t ≡ ok (piece s, rest)) e (get_str-canonical s rest a) in
    let shorter : length rest ≤ length oct = omega (
      arith,
      ap (λ (t : Bytes). length t) e,
      length-append (canonical s) rest,
      length-append (decimal (length s)) (b':' ∷ s),
    ) in
    rw e (
      step_atom _ total c oct s rest depth digit read
      ∙ sexp_loop_fuel _ _ total rest depth (omega arith) (omega arith))

mutual
  unfolding encode

  scan-encode :
      (total : ℕ) (c : Canon) (rest : Bytes) (depth : ℕ)
      → IsCanon c
      → scan total (encode c ++ rest) depth ≡ scan total rest depth
  scan-encode total (atom s) rest depth h = scan_atom total s rest depth h
  scan-encode total (list cs) rest depth h =
      let inside = encodes cs ++ (b')' ∷ rest) in
      let flat : encode (list cs) ++ rest ≡ b'(' ∷ inside =
        ap (λ (t : Bytes). b'(' ∷ t) (append_assoc (encodes cs) (b')' ∷ []) rest) in
      ap (λ (t : Bytes). scan total t depth) flat
      ∙ step_open (suc (length inside)) total inside depth
      ∙ scan-encodes total cs (b')' ∷ rest) (depth + 1) h
      ∙ scan_close total rest depth

  scan-encodes :
      (total : ℕ) (cs : Canons) (rest : Bytes) (depth : ℕ)
      → AreCanon cs
      → scan total (encodes cs ++ rest) depth ≡ scan total rest depth
  scan-encodes total nil rest depth h = refl
  scan-encodes total (cons c cs) rest depth h =
      let flat : encodes (cons c cs) ++ rest ≡ encode c ++ (encodes cs ++ rest) =
        append_assoc (encode c) (encodes cs) rest in
      rw flat
        (scan-encode total c (encodes cs ++ rest) depth h.0 ∙ scan-encodes total cs rest depth h.1)

encode-list :
    (cs : Canons) (rest : Bytes) → encode (list cs) ++ rest ≡ b'(' ∷ (encodes cs ++ (b')' ∷ rest))
unfolding encode
encode-list cs rest = ap (λ (t : Bytes). b'(' ∷ t) (append_assoc (encodes cs) (b')' ∷ []) rest)

list_length :
    (cs : Canons) (rest : Bytes)
    → length (b'(' ∷ (encodes cs ++ (b')' ∷ rest))) - length rest ≡ length (encode (list cs))
unfolding encode
list_length cs rest =
    omega (arith, length-append (encodes cs) (b')' ∷ rest), length-append (encodes cs) (b')' ∷ []))

sexp_len_open : (oct : Bytes) → sexp_len (b'(' ∷ oct) ≡ scan (length (b'(' ∷ oct)) oct 0
unfolding sexp_len
sexp_len_open oct = refl

-- `sexp_len` finds the end of a canonical list, whose atoms have one to `INT_MAX` bytes each, whatever
-- follows it: it returns the length of the list, as an `int`.
pub sexp_len-encode :
    (cs : Canons) (rest : Bytes)
    → AreCanon cs
    → sexp_len (encode (list cs) ++ rest) ≡ ok (length (encode (list cs)) % int_mod)
sexp_len-encode cs rest h =
    let inside = encodes cs ++ (b')' ∷ rest) in
    let total = length (b'(' ∷ inside) in
    ap sexp_len (encode-list cs rest)
    ∙ sexp_len_open inside
    ∙ scan-encodes total cs (b')' ∷ rest) 0 h
    ∙ step_close (suc (length rest)) total rest 0
    ∙ ap (λ (n : ℕ). ok (n % int_mod)) (list_length cs rest)

-- A length of at most `total`.
abbrev Bounded : ℕ → Result ℕ → Type 0
Bounded total r = (n : ℕ) × (r ≡ ok n) × (n ≤ total)

sexp_loop-Bounded :
    (fuel total : ℕ) (oct : Bytes) (depth : ℕ)
    → length oct < fuel
    → Bounded total (sexp_loop fuel total oct depth)
unfolding sexp_loop
sexp_loop-Bounded zero total oct depth h = absurd (omega arith)
sexp_loop-Bounded (suc f) total [] depth h = (0, refl, omega arith)
sexp_loop-Bounded (suc f) total (c ∷ oct) depth h = elim (Bool-cases (c == b'(')) [
  | inl opens ↦ rw opens (sexp_loop-Bounded f total oct (depth + 1) (omega arith))
  | inr other ↦ elim (Bool-cases (c == b')')) [
    | inl closes ↦ elim (Bool-cases (depth == 0)) [
      | inl outer ↦ rw (other, closes, outer) ((total - length oct) % int_mod, refl, omega arith)
      | inr inner ↦
          rw (other, closes, inner) (sexp_loop-Bounded f total oct (depth - 1) (omega arith))
    ]
    | inr plain ↦ elim (get_str_outcomes c oct) [
      | inl e ↦ rw (other, plain, e) (0, refl, omega arith)
      | inr (s, rest, e, pos, shorter) ↦
          rw (other, plain, e) (sexp_loop-Bounded f total rest depth (omega arith))
    ]
  ]
]

-- `sexp_len` ends on a text of one to `INT_MAX` bytes. It returns -1 on one that does not begin with a
-- bracket, and on no other, whatever breaks its syntax; otherwise it returns a length of at most the text's.
pub sexp_len_outcomes :
    (c : ℕ) (oct : Bytes)
    → length (c ∷ oct) ≤ int_max
    → (n : ℕ) × (sexp_len (c ∷ oct) ≡ ok n)
      × ((c ≡ b'(') × (n ≢ minus_one) × (n ≤ length (c ∷ oct)) ⊎ (c ≢ b'(') × (n ≡ minus_one))
sexp_len_outcomes c oct short = elim (Bool-cases (c == b'(')) [
  | inl opens ↦
      let (n, e, le) =
        sexp_loop-Bounded (suc (length oct)) (length (c ∷ oct)) oct 0 (omega arith) in
      (
        n,
        unfold sexp_len in rw (opens, e),
        inl ((==_iff c b'(').0 opens, λ e. omega (arith, e, le, short), le),
      )
  | inr other ↦ (minus_one, unfold sexp_len in rw other, inr (λ e. ground arith, refl))
]
