-- ===== src/Range/Ends.antt =====
-- lib/input.c: `do_range` leaves less than it was given, and its fuel does not run out.
use spocp.Prelude.{
  ℕ, suc, Bytes, [], ◌∷◌, Option, none, some, Bool, ◌==◌, length, ok, err, arith, inl, inr, Ends,
  Ends-bind, Ends_mono, Stops, Stops-bind, left, Bool-cases, syntax_error,
}
use spocp.Range.{
  SpocpRange, Libc, RangeType, date, time, alpha, ipv4, numeric, bytes_of, do_range, first_limit,
  second_limit, close_range, read_limit, limit_at, range_at, Side, range_type, set_delimiter,
  set_limit, lower_side, upper_side, is_ipv4, Value, num_of,
}
use spocp.Sexp.Token.{get_str_outcomes, get_str-nil}
use spocp.Sexp.{Piece, piece, runaway, get_str}
use spocp.Verify.Time.{is_numeric-Stops, hms2int-Stops}
use spocp.Verify.{is_time, is_date}

pub get_str-Ends : (op : Bytes) → Ends left (suc (length op)) (get_str op)
get_str-Ends [] = rw get_str-nil (omega arith)
get_str-Ends (c ∷ op) = elim (get_str_outcomes c op) [
  | inl e ↦ rw e tt
  | inr (s, rest, e, pos, shorter) ↦ rw e (omega arith)
]

pub bytes_of-Stops : (p : Piece) → Stops (bytes_of p)
bytes_of-Stops (piece s) = omega arith
bytes_of-Stops runaway = tt

is_ipv4-Stops : (libc : Libc) (op : Bytes) → Stops (is_ipv4 libc op)
unfolding is_ipv4
is_ipv4-Stops libc op =
    elim (libc.inet_pton op)
      as (λ r. Stops (elim r [ none ↦ err syntax_error | some a ↦ ok (libc.htonl a) ])) [
        | none ↦ tt
        | some a ↦ omega arith
      ]

set_limit-Stops :
    (libc : Libc) (t : RangeType) (v : Value) (op : Bytes) → Stops (set_limit libc t v op)
unfolding set_limit
set_limit-Stops libc numeric v op = Stops-bind _ 1 _ _ (is_numeric-Stops op) (λ a. omega arith)
set_limit-Stops libc alpha v op = omega arith
set_limit-Stops libc date v op = elim (Bool-cases (is_date op)) [
  | inl e ↦ rw e (omega arith)
  | inr e ↦ rw e tt
]
set_limit-Stops libc time v op = elim (Bool-cases (is_time op)) [
  | inl e ↦ rw e (Stops-bind _ 1 _ _ (hms2int-Stops op (num_of v)) (λ a. omega arith))
  | inr e ↦ rw e tt
]
set_limit-Stops libc ipv4 v op = Stops-bind _ 1 _ _ (is_ipv4-Stops libc op) (λ a. omega arith)

-- What a limit leaves.
abbrev left_of : SpocpRange × Bytes × Bytes → ℕ
left_of x = length x.2

limit_at-Ends :
    (libc : Libc) (r : SpocpRange) (side : Option (Side × Bool)) (op : Bytes)
    → Ends left_of (suc (length op)) (limit_at libc r side op)
unfolding limit_at
limit_at-Ends libc r none op = tt
limit_at-Ends libc r (some (lower_side, eq)) op =
    Ends-bind left left_of _ _ _ _ (get_str-Ends op) (λ y hy.
      Stops-bind left_of _ _ _ (bytes_of-Stops y.0) (λ oct.
        Stops-bind left_of _ _ _ (set_limit-Stops libc r.type_of r.lower.value oct) (λ v. hy)))
limit_at-Ends libc r (some (upper_side, eq)) op =
    Ends-bind left left_of _ _ _ _ (get_str-Ends op) (λ y hy.
      Stops-bind left_of _ _ _ (bytes_of-Stops y.0) (λ oct.
        Stops-bind left_of _ _ _ (set_limit-Stops libc r.type_of r.upper.value oct) (λ v. hy)))

read_limit-Ends :
    (libc : Libc) (r : SpocpRange) (op : Bytes)
    → Ends left_of (suc (length op)) (read_limit libc r op)
unfolding read_limit
read_limit-Ends libc r op =
    Ends-bind left left_of _ _ _ _ (get_str-Ends op)
      (λ x hx. Ends_mono left_of _ _ _ (omega arith) (limit_at-Ends libc r (set_delimiter x.0) x.1))

close_range-Ends :
    (r : SpocpRange) (oct op : Bytes) → Ends left (suc (length op)) (close_range r oct op)
unfolding close_range
close_range-Ends r oct [] = tt
close_range-Ends r oct (c ∷ op) = ground arith

second_limit-Ends :
    (libc : Libc) (r : SpocpRange) (op : Bytes)
    → Ends left (suc (length op)) (second_limit libc r op)
unfolding second_limit
second_limit-Ends libc r [] = tt
second_limit-Ends libc r (c ∷ op) = elim (Bool-cases (c == b')')) [
  | inl e ↦ rw e (omega arith)
  | inr e ↦ rw e (
      Ends-bind left_of left _ _ _ _ (read_limit-Ends libc r (c ∷ op))
        (λ x hx. Ends_mono left _ _ _ (omega arith) (close_range-Ends x.0 x.1 x.2)))
]

first_limit-Ends :
    (libc : Libc) (r : SpocpRange) (op : Bytes)
    → Ends left (suc (length op)) (first_limit libc r op)
unfolding first_limit
first_limit-Ends libc r [] = tt
first_limit-Ends libc r (c ∷ op) = elim (Bool-cases (c == b')')) [
  | inl e ↦ rw e (omega arith)
  | inr e ↦ rw e (
      Ends-bind left_of left _ _ _ _ (read_limit-Ends libc r (c ∷ op))
        (λ x hx. Ends_mono left _ _ _ (omega arith) (second_limit-Ends libc x.0 x.2)))
]

range_at-Ends :
    (libc : Libc) (t : Option RangeType) (op : Bytes)
    → Ends left (suc (length op)) (range_at libc t op)
unfolding range_at
range_at-Ends libc none op = tt
range_at-Ends libc (some t) op = first_limit-Ends libc _ op

pub do_range-Ends : (libc : Libc) (op : Bytes) → Ends left (suc (length op)) (do_range libc op)
unfolding do_range
do_range-Ends libc op =
    Ends-bind left left _ _ _ _ (get_str-Ends op)
      (λ x hx. Ends_mono left _ _ _ (omega arith) (range_at-Ends libc (range_type x.0) x.1))

pub get_str_cons-Ends : (c : ℕ) (op : Bytes) → Ends left (suc (length op)) (get_str (c ∷ op))
get_str_cons-Ends c op = elim (get_str_outcomes c op) [
  | inl e ↦ rw e tt
  | inr (s, rest, e, pos, shorter) ↦ rw e (omega arith)
]
