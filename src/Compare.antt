-- ===== src/Compare.antt =====
-- server/cmp.c: whether an element is covered by another, `elementcmp`; an `int` that is 0 if it is.
-- The octet string that the functions write a trace to is the null pointer here.
pub mod Decides
pub mod Covers
pub mod Answers
pub mod Texts
pub mod Below
pub mod Ranges
use spocp.Element.{Element, Elements, atom, list, set, prefix, suffix, range, any, nil, cons}
use spocp.Octet.Compare.{octcmp, octncmp}
use spocp.Prelude.{
  ℕ, Bytes, [], Option, none, some, Bool, true, false, not, leb, ltb, ◌==◌, if◌then◌else◌, length,
  is_negative, is_positive, Result, ok, err, fault, unfinished, ◌>>=◌,
}
use spocp.Range.{
  RangeType, date, time, alpha, ipv4, numeric, Value, num, address, octets, num_of, Boundary,
  is_set, SpocpRange, Libc, ipv4cmp, long_diff, valuecmp, is_ipv4,
}
use spocp.Verify.{is_numeric, is_time, is_date}

unfoldable pub atomcmp : Bytes → Bytes → ℕ
atomcmp a b = octcmp (some a) (some b)

-- The members of the union, for a value that was stored as the type of its range says.
abbrev octets_of : Value → Bytes
octets_of (octets s) = s
octets_of _ = []

abbrev address_of : Value → ℕ
address_of (address a) = a
address_of _ = 0

-- A result that is not SPOCP_SUCCESS leaves `v` at 0.
or_zero : Result ℕ → (ℕ → ℕ) → Result ℕ
or_zero (ok n) f = ok (f n)
or_zero (err e) f = ok 0
or_zero fault f = fault
or_zero unfinished f = unfinished

-- What `atom2boundarycmp` stores in `*dir`. It returns 0 on all the types.
unfoldable pub atom2boundarycmp : Libc → Bytes → RangeType → Value → Result ℕ
unfolding or_zero
atom2boundarycmp libc a alpha v = ok (octcmp (some a) (some (octets_of v)))
atom2boundarycmp libc a date v =
    if is_date a then ok (octcmp (some a) (some (octets_of v))) else ok 0
atom2boundarycmp libc a time v =
    if is_time a then or_zero (is_numeric a) (λ l. long_diff l (num_of v)) else ok 0
atom2boundarycmp libc a numeric v = or_zero (is_numeric a) (λ l. long_diff l (num_of v))
atom2boundarycmp libc a ipv4 v = or_zero (is_ipv4 libc a) (λ i. ipv4cmp i (address_of v))

same_type : RangeType → RangeType → Bool
same_type date date = true
same_type time time = true
same_type alpha alpha = true
same_type ipv4 ipv4 = true
same_type numeric numeric = true
same_type _ _ = false

-- -2 on boundaries of two types.
boundarycmp : RangeType → Value → RangeType → Value → ℕ
unfolding same_type
boundarycmp t a u b = if same_type t u then valuecmp a b else 4294967294

-- The test of `*dir` at the lower side, and at the upper.
abbrev pub above : Boundary → ℕ → Bool
above b d = if b.bound then if b.equal then not (is_negative d) else is_positive d else false

abbrev pub below : Boundary → ℕ → Bool
below b d = if b.bound then if b.equal then not (is_positive d) else is_negative d else false

-- One side of `atom2rangecmp`: true to go on.
unfoldable pub within : Libc → Bytes → RangeType → Boundary → (ℕ → Bool) → Result Bool
within libc a t b test =
    if is_set b then (atom2boundarycmp libc a t b.value >>= λ d. ok (test d)) else ok true

unfoldable pub atom2rangecmp : Libc → Bytes → SpocpRange → Result ℕ
unfolding within
atom2rangecmp libc a r = within libc a r.type_of r.lower (above r.lower) >>= λ l.
    if l
    then (within libc a r.type_of r.upper (below r.upper) >>= λ u. ok (if u then 0 else 1))
    else ok 1

unfoldable pub atom2prefixcmp : Bytes → Bytes → ℕ
atom2prefixcmp a s = if leb (length s) (length a) then octncmp a s (length s) else 1

-- `tmp` begins `a->val.len - s->val.len` bytes before the suffix and ends where the suffix ends: the
-- suffix itself for an atom as long as it is, and otherwise outside it.
unfoldable pub atom2suffixcmp : Bytes → Bytes → Result ℕ
atom2suffixcmp a s =
    if leb (length s) (length a)
    then if length a == length s then ok (octcmp (some s) (some s)) else fault
    else ok 1

unfoldable pub suffixcmp : Bytes → Bytes → ℕ
suffixcmp a b = octcmp (some a) (some b)

unfoldable pub prefixcmp : Bytes → Bytes → ℕ
prefixcmp a b = octcmp (some a) (some b)

-- The two comparisons are made, and their results are not used.
unfoldable pub rangecmp : SpocpRange → SpocpRange → ℕ
unfolding boundarycmp
rangecmp a b =
    let r = boundarycmp a.type_of a.lower.value b.type_of b.lower.value in
    let r' = boundarycmp a.type_of a.lower.value b.type_of b.upper.value in 0

unfoldable mutual
  pub elementcmp : Libc → Element → Element → Result ℕ
  elementcmp libc (atom a) (atom b) = ok (atomcmp a b)
  elementcmp libc (atom a) (prefix b) = ok (atom2prefixcmp a b)
  elementcmp libc (atom a) (suffix b) = atom2suffixcmp a b
  elementcmp libc (atom a) (range b) = atom2rangecmp libc a b
  elementcmp libc (atom a) (set nil) = fault
  elementcmp libc (atom a) (set (cons e es)) = element2setcmp libc (atom a) (cons e es)
  elementcmp libc (prefix a) (prefix b) = ok (prefixcmp a b)
  elementcmp libc (suffix a) (suffix b) = ok (suffixcmp a b)
  elementcmp libc (range a) (range b) = ok (rangecmp a b)
  elementcmp libc (range a) (set nil) = fault
  elementcmp libc (range a) (set (cons e es)) = element2setcmp libc (range a) (cons e es)
  elementcmp libc (list la) (list lb) = listcmp libc la lb
  elementcmp libc a b = ok 1

  -- The loop over the members that are left.
  pub element2setcmp : Libc → Element → Elements → Result ℕ
  element2setcmp libc a nil = ok 1
  element2setcmp libc a (cons e es) =
      elementcmp libc a e >>= λ r. elim (r == 0) [ true ↦ ok 0 | false ↦ element2setcmp libc a es ]

  pub listcmp : Libc → Elements → Elements → Result ℕ
  listcmp libc la nil = ok 0
  listcmp libc nil (cons b lb) = ok 1
  listcmp libc (cons a la) (cons b lb) =
      elementcmp libc a b >>= λ r. elim (r == 0) [ true ↦ listcmp libc la lb | false ↦ ok 1 ]
