-- ===== src/Range.antt =====
-- lib/input.c: ranges, `(1:*5:range7:numeric2:ge1:52:le2:10)` and the like: the boundaries, what makes
-- a range valid, when it is an atom, and `do_range`. What is read is an octet string, as in `Sexp`.
pub mod Order
pub mod Ends
use spocp.Octet.Compare.{octcmp}
use spocp.Prelude.{
  ℕ, ◌+◌, ◌-◌, ◌%◌, ◌^◌, Bytes, [], ◌∷◌, Option, none, some, Bool, true, false, not, ◌&&◌, ◌||◌,
  leb, ltb, ◌==◌, if◌then◌else◌, same_bytes, codes, int_mod, is_negative, Result, ok, err, fault,
  unfinished, syntax_error, ◌>>=◌,
}
use spocp.Sexp.{Piece, piece, runaway, get_str}
use spocp.Verify.{is_numeric, is_time, is_date, hms2int, MoveTime, to_gmt}

-- SPOC_DATE to SPOC_NUMERIC of include/struct.h. SPOC_IPV6 is not here: the parser tests for it under
-- `USE_IPv6`, and the build defines `USE_IPV6`, so no range of that type is ever made.
pub data RangeType : Type 0 where
  date time alpha ipv4 numeric : RangeType

-- The union of `boundary_t`.
pub data Value : Type 0 where
  num : ℕ → Value
  address : ℕ → Value
  octets : Bytes → Value

-- One side of a range. `bound` is its LT or GT bit, and `equal` its EQ bit.
pub record Boundary : Type 0 where
  pub bound : Bool
  pub equal : Bool
  pub value : Value

pub record SpocpRange : Type 0 where
  pub type_of : RangeType
  pub lower : Boundary
  pub upper : Boundary

-- The C library: `inet_pton` for AF_INET, `htonl`, and the calls in `to_gmt`.
pub record Libc : Type 0 where
  pub inet_pton : Bytes → Option ℕ
  pub htonl : ℕ → ℕ
  pub move_time : MoveTime

-- A boundary of zeros, as `Calloc` leaves it.
unfoldable pub no_boundary : RangeType → Boundary
no_boundary alpha = record { bound = false; equal = false; value = octets [] }
no_boundary date = record { bound = false; equal = false; value = octets [] }
no_boundary ipv4 = record { bound = false; equal = false; value = address 0 }
no_boundary _ = record { bound = false; equal = false; value = num 0 }

abbrev pub is_set : Boundary → Bool
is_set b = b.bound || b.equal

-- The difference of two `s_addr`, returned as an `int`.
unfoldable pub ipv4cmp : ℕ → ℕ → ℕ
ipv4cmp a b = (a + int_mod - b) % int_mod

abbrev pub long_diff : ℕ → ℕ → ℕ
long_diff a b = (a + 2 ^ 64 - b) % int_mod

-- `boundarycmp` of the upper against the lower value; the two are of the type of the range.
unfoldable pub valuecmp : Value → Value → ℕ
unfolding ipv4cmp
valuecmp (num a) (num b) = long_diff a b
valuecmp (address a) (address b) = ipv4cmp a b
valuecmp (octets a) (octets b) = octcmp (some a) (some b)
valuecmp _ _ = 0

-- False stands for SPOCP_SYNTAXERROR.
unfoldable pub is_valid_range : SpocpRange → Bool
is_valid_range r =
    if is_set r.lower && is_set r.upper
    then (let c = valuecmp r.upper.value r.lower.value in
        not (is_negative c) && not (c == 0 && (not r.upper.equal && not r.lower.equal)))
    else true

values_meet : Value → Value → Bool
values_meet (num l) (num u) = not (l == 0) && l == u
values_meet (address l) (address u) = l == u
values_meet (octets []) (octets _) = true
values_meet (octets (c ∷ l)) (octets []) = true
values_meet (octets (c ∷ l)) (octets (d ∷ u)) = octcmp (some (c ∷ l)) (some (d ∷ u)) == 0
values_meet _ _ = false

unfoldable pub is_atom : SpocpRange → Bool
unfolding values_meet
is_atom r = values_meet r.lower.value r.upper.value

-- `strncasecmp` is asked for equality.
lower_case : ℕ → ℕ
lower_case c = if leb b'A' c && leb c b'Z' then c + 32 else c

lower_all : Bytes → Bytes
unfolding lower_case
lower_all [] = []
lower_all (c ∷ s) = lower_case c ∷ lower_all s

range_type : Piece → Option RangeType
unfolding lower_all
range_type runaway = none
range_type (piece s) =
    let t = lower_all s in
    if same_bytes t (codes "date")
    then some date
    else if same_bytes t (codes "ipv4")
    then some ipv4
    else if same_bytes t (codes "time")
    then some time
    else if same_bytes t (codes "alpha")
    then some alpha
    else if same_bytes t (codes "numeric")
    then some numeric
    else none

pub data Side : Type 0 where
  lower_side upper_side : Side

-- `set_delimiter`: the side, and whether the EQ bit is set.
set_delimiter : Piece → Option (Side × Bool)
set_delimiter runaway = none
set_delimiter (piece s) =
    if same_bytes s (codes "ge")
    then some (lower_side, true)
    else if same_bytes s (codes "gt")
    then some (lower_side, false)
    else if same_bytes s (codes "le")
    then some (upper_side, true)
    else if same_bytes s (codes "lt")
    then some (upper_side, false)
    else none

-- `is_ipv4` of lib/verify.c: it stores `htonl` of what `inet_pton` has stored.
unfoldable pub is_ipv4 : Libc → Bytes → Result ℕ
is_ipv4 libc op = elim (libc.inet_pton op) [ none ↦ err syntax_error | some a ↦ ok (libc.htonl a) ]

abbrev pub num_of : Value → ℕ
num_of (num n) = n
num_of _ = 0

set_limit : Libc → RangeType → Value → Bytes → Result Value
unfolding is_ipv4
set_limit libc numeric old op = is_numeric op >>= λ n. ok (num n)
set_limit libc alpha old op = ok (octets op)
set_limit libc date old op =
    if is_date op then ok (octets (to_gmt libc.move_time op)) else err syntax_error
set_limit libc time old op =
    if is_time op then (hms2int op (num_of old) >>= λ n. ok (num n)) else err syntax_error
set_limit libc ipv4 old op = is_ipv4 libc op >>= λ a. ok (address a)

-- Reading the octets of a piece.
abbrev pub bytes_of : Piece → Result Bytes
bytes_of (piece s) = ok s
bytes_of runaway = fault

abbrev limited : Boundary → Bool → Value → Boundary
limited b eq v = record { bound = true; equal = b.equal || eq; value = v }

-- The value of a limit, whose delimiter has been read.
limit_at : Libc → SpocpRange → Option (Side × Bool) → Bytes → Result (SpocpRange × Bytes × Bytes)
unfolding set_limit
limit_at libc r none op = err syntax_error
limit_at libc r (some (lower_side, eq)) op = do
  y ← get_str op
  oct ← bytes_of y.0
  v ← set_limit libc r.type_of r.lower.value oct
  ok (record r { lower = limited r.lower eq v }, oct, y.1)
limit_at libc r (some (upper_side, eq)) op = do
  y ← get_str op
  oct ← bytes_of y.0
  v ← set_limit libc r.type_of r.upper.value oct
  ok (record r { upper = limited r.upper eq v }, oct, y.1)

-- A limit with its value: what `do_range` does between two of its tests for the closing bracket.
-- It returns the octets of the value, too.
read_limit : Libc → SpocpRange → Bytes → Result (SpocpRange × Bytes × Bytes)
unfolding limit_at set_delimiter
read_limit libc r op = get_str op >>= λ x. limit_at libc r (set_delimiter x.0) x.1

-- A range element, or the atom that a range with two limits is found to be.
pub data RangeElement : Type 0 where
  range_of : SpocpRange → RangeElement
  atom_of : Bytes → RangeElement

close_range : SpocpRange → Bytes → Bytes → Result (RangeElement × Bytes)
close_range r oct [] = fault
close_range r oct (c ∷ op) =
    if not (c == b')')
    then err syntax_error
    else if not (is_valid_range r)
    then err syntax_error
    else if is_atom r
    then ok (atom_of oct, op)
    else ok (range_of r, op)

second_limit : Libc → SpocpRange → Bytes → Result (RangeElement × Bytes)
unfolding read_limit close_range
second_limit libc r [] = fault
second_limit libc r (c ∷ op) =
    if c == b')'
    then ok (range_of r, op)
    else (read_limit libc r (c ∷ op) >>= λ x. close_range x.0 x.1 x.2)

first_limit : Libc → SpocpRange → Bytes → Result (RangeElement × Bytes)
unfolding read_limit second_limit
first_limit libc r [] = fault
first_limit libc r (c ∷ op) =
    if c == b')'
    then ok (range_of r, op)
    else (read_limit libc r (c ∷ op) >>= λ x. second_limit libc x.0 x.2)

-- The range whose type has been read: a structure of zeros.
range_at : Libc → Option RangeType → Bytes → Result (RangeElement × Bytes)
unfolding first_limit
range_at libc none op = err syntax_error
range_at libc (some t) op =
    first_limit libc (record { type_of = t; lower = no_boundary t; upper = no_boundary t }) op

unfoldable pub do_range : Libc → Bytes → Result (RangeElement × Bytes)
unfolding range_type range_at
do_range libc op = get_str op >>= λ x. range_at libc (range_type x.0) x.1
