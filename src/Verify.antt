-- ===== src/Verify.antt =====
-- lib/verify.c: numbers, dates and times of day in an octet string; and `hms2int` and `to_gmt` of
-- lib/input.c, which turn what was verified into a value.
pub mod Time
use spocp.Prelude.{
  ℕ, ◌+◌, ◌-◌, ◌*◌, ◌%◌, Bytes, [], ◌∷◌, Bool, true, false, ◌&&◌, ◌||◌, leb, ltb, ◌==◌,
  if◌then◌else◌, length, take, drop, size_mod, Result, ok, err, fault, syntax_error,
}
use spocp.Sexp.{is_digit}

-- `n` is a `long`, and wraps around here where it overflows.
numeric_loop : Bytes → ℕ → ℕ × Bytes
numeric_loop [] n = (n, [])
numeric_loop (c ∷ sp) n =
    if is_digit c then numeric_loop sp ((n * 10 + (c - b'0')) % size_mod) else (n, c ∷ sp)

-- LONG_MAX and LONG_MIN, as 64 bits.
abbrev pub long_max : ℕ
long_max = 9223372036854775807

numeric_end : ℕ × Bytes → Result ℕ
numeric_end (n, []) = if n == long_max || n == long_max + 1 then err syntax_error else ok n
numeric_end (n, c ∷ sp) = err syntax_error

unfoldable pub is_numeric : Bytes → Result ℕ
unfolding numeric_loop numeric_end
is_numeric [] = fault
is_numeric (c ∷ op) = if c == 0 then err syntax_error else numeric_end (numeric_loop (c ∷ op) 0)

-- Two bytes that are an hour from 00 to 24, as the tests of `is_time` and `is_date` have it.
abbrev pub is_hour : ℕ → ℕ → Bool
is_hour a b = (a == b'0' || a == b'1') && is_digit b || a == b'2' && (leb b'0' b && leb b b'4')

-- A minute or a second from 00 to 59.
abbrev pub is_minute : ℕ → ℕ → Bool
is_minute a b = leb b'0' a && leb a b'5' && is_digit b

abbrev is_month : ℕ → ℕ → Bool
is_month a b = a == b'0' && (leb b'1' b && leb b b'9') || a == b'1' && (leb b'0' b && leb b b'2')

abbrev is_day : ℕ → ℕ → Bool
is_day a b =
    a == b'0' && (leb b'1' b && leb b b'9')
    || (a == b'1' || a == b'2') && is_digit b
    || a == b'3' && (b == b'0' || b == b'1')

-- True stands for SPOCP_SUCCESS, false for SPOCP_SYNTAXERROR.
unfoldable pub is_time : Bytes → Bool
is_time (a ∷ b ∷ c ∷ d ∷ e ∷ f ∷ g ∷ h ∷ []) =
    is_hour a b && c == b':' && is_minute d e && f == b':' && is_minute g h
is_time _ = false

-- What stands behind the second: `Z`, or an offset of two digits, or of `hh:mm`.
is_offset : Bytes → Bool
is_offset [] = false
is_offset (c ∷ []) = c == b'Z'
is_offset (c ∷ a ∷ []) = false
is_offset (c ∷ a ∷ b ∷ []) = (c == b'+' || c == b'-') && is_hour a b
is_offset (c ∷ a ∷ b ∷ d ∷ e ∷ f ∷ []) =
    (c == b'+' || c == b'-') && is_hour a b && d == b':' && is_minute e f
is_offset _ = false

is_clock : Bytes → Bool
unfolding is_offset
is_clock (t ∷ a ∷ b ∷ c ∷ d ∷ e ∷ f ∷ g ∷ h ∷ rest) =
    t == b'T'
    && is_hour a b
    && c == b':'
    && is_minute d e
    && f == b':'
    && is_minute g h
    && is_offset rest
is_clock _ = false

unfoldable pub is_date : Bytes → Bool
unfolding is_clock
is_date (y ∷ e ∷ a ∷ r ∷ d ∷ m ∷ o ∷ s ∷ b ∷ c ∷ rest) =
    is_digit y
    && is_digit e
    && is_digit a
    && is_digit r
    && d == b'-'
    && is_month m o
    && s == b'-'
    && is_day b c
    && is_clock rest
is_date _ = false

-- `hms2int` adds the seconds of a time of day to `num`. It reads eight bytes.
unfoldable pub hms2int : Bytes → ℕ → Result ℕ
hms2int (a ∷ b ∷ c ∷ d ∷ e ∷ f ∷ g ∷ h ∷ op) num = ok (
    num
    + (a - b'0') * 36000
    + (b - b'0') * 3600
    + (d - b'0') * 600
    + (e - b'0') * 60
    + (g - b'0') * 10
    + (h - b'0'))
hms2int _ num = fault

-- What `to_gmt` leaves to the C library: the date in the first 19 bytes moved by seconds, later if
-- the flag is true and earlier if it is false (`strptime`, `mktime`, `localtime_r`, `strftime`).
abbrev pub MoveTime : Type 0
MoveTime = Bytes → Bool → ℕ → Bytes

-- The seconds that `to_gmt` reads from an offset. It steps over the colon in the octet pointer and
-- not in the text, so the colon is read as a digit, 10, and the first digit of the minutes as the last.
abbrev offset_seconds : Bytes → ℕ
offset_seconds (a ∷ b ∷ []) = (a - b'0') * 36000 + (b - b'0') * 3600
offset_seconds (a ∷ b ∷ c ∷ d ∷ rest) =
    (a - b'0') * 36000 + (b - b'0') * 3600 + (c - b'0') * 600 + (d - b'0') * 60
offset_seconds _ = 0

offset_gmt : MoveTime → Bytes → Bytes → Bytes
offset_gmt move date (sign ∷ rest) = move date (sign == b'+') (offset_seconds rest)
offset_gmt move date [] = date

-- Called only on what `is_date` accepts.
unfoldable pub to_gmt : MoveTime → Bytes → Bytes
unfolding offset_gmt
to_gmt move s =
    if length s == 19 || length s == 20 then take 19 s else offset_gmt move (take 19 s) (drop 19 s)
