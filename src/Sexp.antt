-- ===== src/Sexp.antt =====
-- lib/sexp.c: the tokens of a canonical s-expression, and the length of one. The octet string that
-- a function advances through is the list of its `len` bytes; a function returns what is left.
pub mod Decimal
pub mod Token
pub mod Canon
pub mod Frame
pub mod Framed
use spocp.Prelude.{
  ℕ, zero, suc, ◌+◌, ◌-◌, ◌*◌, ◌%◌, Bytes, [], ◌∷◌, Bool, true, false, ◌&&◌, ltb, leb, ◌==◌,
  if◌then◌else◌, length, take, drop, int_mod, size_mod, is_negative, minus_one, Result, ok, err,
  fault, unfinished, syntax_error, missing_char,
}

-- The macro DIGIT of include/proto.h.
abbrev pub is_digit : ℕ → Bool
is_digit c = leb b'0' c && leb c b'9'

-- The loop over the digits; `n` is an `int` and wraps around here where it overflows.
unfoldable pub len_loop : Bytes → ℕ → ℕ × Bytes
len_loop [] n = (n, [])
len_loop (c ∷ sp) n =
    if is_digit c then len_loop sp ((n * 10 + (c - b'0')) % int_mod) else (n, c ∷ sp)

-- What is asked of the number and of the byte behind it.
pub len_end : ℕ → Bytes → Result (ℕ × Bytes)
len_end n [] = if n == 0 then err syntax_error else err missing_char
len_end n (c ∷ sp) =
    if n == 0 then err syntax_error else if c == b':' then ok (n, c ∷ sp) else err syntax_error

unfoldable pub get_len : Bytes → Result (ℕ × Bytes)
unfolding len_loop len_end
get_len [] = err missing_char
get_len (c ∷ op) = let (n, sp) = len_loop (c ∷ op) 0 in len_end n sp

-- An `int` stored in a `size_t`.
abbrev pub to_size : ℕ → ℕ
to_size n = if is_negative n then n + size_mod - int_mod else n

-- The octets that `get_str` hands out: a part of the text, or the octets of length `SIZE_MAX` that
-- begin behind it.
pub data Piece : Type 0 where
  piece : Bytes → Piece
  runaway : Piece

-- `ro->len` is a `size_t`, so the test `< 0` on it never holds, and the -1 of a failed `get_len` is
-- compared as the largest length with what is left: at the end of the text, 0 - 1, which is as large.
get_str_at : Bytes → Result (ℕ × Bytes) → Result (Piece × Bytes)
get_str_at so (ok (n, sp)) =
    let l = to_size n in
    if ltb (length sp - 1) l
    then err missing_char
    else if l == 0
    then err syntax_error
    else ok (piece (take l (drop 1 sp)), drop l (drop 1 sp))
get_str_at [] _ = ok (runaway, [])
get_str_at (c ∷ so) _ = err missing_char

unfoldable pub get_str : Bytes → Result (Piece × Bytes)
unfolding get_str_at
get_str so = get_str_at so (get_len so)

-- The loop of `sexp_len`. `total` is the length of the whole text; every round shortens the rest.
sexp_loop : ℕ → ℕ → Bytes → ℕ → Result ℕ
sexp_loop zero total oct depth = unfinished
sexp_loop (suc fuel) total [] depth = ok 0
sexp_loop (suc fuel) total (c ∷ oct) depth =
    let opened = sexp_loop fuel total oct (depth + 1) in
    let closed = sexp_loop fuel total oct (depth - 1) in
    let atom : Result ℕ = elim (get_str (c ∷ oct)) [
      | ok (str, rest) ↦ sexp_loop fuel total rest depth
      | err syntax_error ↦ ok minus_one
      | err missing_char ↦ ok 0
      | _ ↦ sexp_loop fuel total (c ∷ oct) depth
    ] in
    if c == b'('
    then opened
    else if c == b')'
    then if depth == 0 then ok ((total - length oct) % int_mod) else closed
    else atom

-- The `int` returned.
unfoldable pub sexp_len : Bytes → Result ℕ
unfolding sexp_loop
sexp_len [] = fault
sexp_len (c ∷ oct) =
    if c == b'(' then sexp_loop (suc (length oct)) (length (c ∷ oct)) oct 0 else ok minus_one
