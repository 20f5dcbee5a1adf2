-- ===== src/Iobuf.antt =====
-- server/iobuf.c: the buffers between a connection and the server. A buffer is the bytes from its start
-- to `w`, where writing goes on; `r`, where reading goes on, and `p`, where the answer begins that has no
-- length yet, as offsets; the bytes left, one place for a final 0 apart; and its size. The lock is held
-- throughout a call, sizes are below 2 ^ 31, and `end` is written only.
pub mod Grow
pub mod Queue
pub mod Tag
use spocp.Prelude.{
  ℕ, zero, suc, ◌+◌, ◌-◌, Bytes, List, [], ◌∷◌, ◌++◌, Bool, true, false, ltb, leb, ◌==◌, ◌||◌,
  if◌then◌else◌, length, take, drop, Result, Code, ok, fault, success, buf_overflow, ◌>>=◌,
}
use spocp.Sexp.Decimal.{decimal}

pub record Iobuf : Type 0 where
  pub data_ : Bytes
  pub r : ℕ
  pub p : ℕ
  pub left : ℕ
  pub bsize : ℕ

-- SPOCP_MAXBUF and SPOCP_IOBUFSIZE.
abbrev pub maxbuf : ℕ
maxbuf = 262144

abbrev pub iobufsize : ℕ
iobufsize = 4096

-- A size that is not 0.
unfoldable pub iobuf_new : ℕ → Iobuf
iobuf_new size = record { data_ = []; r = 0; p = 0; left = size - 1; bsize = size }

abbrev pub with_size : Iobuf → ℕ → Iobuf
with_size io more = record {
  data_ = io.data_;
  r = io.r;
  p = io.p;
  left = io.left + more;
  bsize = io.bsize + more;
}

-- A buffer that is not null; what was in it stays.
unfoldable pub iobuf_resize : Iobuf → (increase : ℕ) → Code × Iobuf
iobuf_resize io increase =
    if io.bsize == maxbuf
    then (buf_overflow, io)
    else if increase == 0
    then (success, with_size io (if ltb maxbuf (io.bsize + iobufsize) then maxbuf else iobufsize))
    else if ltb maxbuf (io.bsize + increase)
    then (buf_overflow, io)
    else (success, with_size io (if ltb increase iobufsize then iobufsize else increase))

-- The bytes are written at `w`, and a 0 behind them.
unfoldable pub write : Iobuf → Bytes → Result (Code × Iobuf)
write io s =
    if ltb (length io.data_ + length s) io.bsize
    then ok (
      success,
      record {
        data_ = io.data_ ++ s;
        r = io.r;
        p = io.p;
        left = io.left - length s;
        bsize = io.bsize;
      },
    )
    else fault

unfoldable pub write_if : Code × Iobuf → Bytes → Result (Code × Iobuf)
unfolding write
write_if (success, io) s = write io s
write_if (code, io) s = ok (code, io)

-- The buffer is made larger if need be, by what is missing.
unfoldable pub append : Iobuf → Bytes → Result (Code × Iobuf)
unfolding write_if
append io s =
    if ltb io.left (length s) then write_if (iobuf_resize io (length s - io.left)) s else write io s

-- A string: its bytes before the 0.
unfoldable pub iobuf_add : Iobuf → Bytes → Result (Code × Iobuf)
unfolding append
iobuf_add io [] = ok (success, io)
iobuf_add io (c ∷ s) = append io (c ∷ s)

-- `n` bytes, of which at least one can be read.
unfoldable pub iobuf_addn : Iobuf → Bytes → Result (Code × Iobuf)
unfolding append
iobuf_addn io [] = ok (success, io)
iobuf_addn io (c ∷ s) = if c == 0 then ok (success, io) else append io (c ∷ s)

-- The macro DIGITS of include/macros.h.
unfoldable pub digits : ℕ → ℕ
digits n =
    if leb 100000 n
    then 6
    else if leb 10000 n
    then 5
    else if leb 1000 n
    then 4
    else if leb 100 n
    then 3
    else if leb 10 n
    then 2
    else 1

-- The length and a colon, cut off after seven characters.
abbrev pub lenfield : Bytes → Bytes
lenfield s = take 7 (decimal (length s) ++ (b':' ∷ []))

-- `w` is moved over the digits of the length, as many as DIGITS says, whatever was written; `fault`
-- stands for the case that they are not as many.
unfoldable pub iobuf_add_octet : Iobuf → Bytes → Result (Code × Iobuf)
unfolding append digits
iobuf_add_octet io [] = ok (success, io)
iobuf_add_octet io (c ∷ s) =
    if length (lenfield (c ∷ s)) == digits (length (c ∷ s)) + 1
    then append io (lenfield (c ∷ s) ++ (c ∷ s))
    else fault

unfoldable pub iobuf_flush : Iobuf → Iobuf
iobuf_flush io = record { data_ = []; r = 0; p = 0; left = io.bsize - 1; bsize = io.bsize }

-- The number of bytes that were not read; `r` is not behind `w`.
unfoldable pub iobuf_content : Iobuf → ℕ
iobuf_content io = length io.data_ - io.r

-- WHITESPACE of include/proto.h.
abbrev pub whitespace : ℕ → Bool
whitespace c = c == b' ' || c == 10 || c == 9 || c == 11 || c == 13 || c == 12

-- What is left behind white space.
unfoldable pub skip : Bytes → Bytes
skip [] = []
skip (c ∷ s) = if whitespace c then skip s else c ∷ s

-- The bytes that were not read move to the front. `p` is put as far behind the start as it was before
-- the end.
unfoldable pub iobuf_shift : Iobuf → Iobuf
unfolding skip iobuf_flush
iobuf_shift io = elim (skip (drop io.r io.data_)) [
  | [] ↦ iobuf_flush io
  | c ∷ s ↦ record {
    data_ = c ∷ s;
    r = 0;
    p = length io.data_ - io.p;
    left = io.bsize - length (c ∷ s) - 1;
    bsize = io.bsize;
  }
]

-- The bytes are put in at an offset, and those behind it moved; no 0 is written behind them.
unfoldable pub put_in : Iobuf → ℕ → Bytes → Result (Code × Iobuf)
put_in io at src =
    if leb (length io.data_ + length src) io.bsize
    then ok (
      success,
      record {
        data_ = take at io.data_ ++ (src ++ drop at io.data_);
        r = io.r;
        p = io.p;
        left = io.left - length src;
        bsize = io.bsize;
      },
    )
    else fault

-- `where` is an address in the buffer: if the buffer is moved when it grows, it is no more. `moved`
-- says whether `Realloc` moves it.
unfoldable pub put_in_if : (moved : Bool) → Code × Iobuf → ℕ → Bytes → Result (Code × Iobuf)
unfolding put_in
put_in_if moved (success, io) at src = if moved then fault else put_in io at src
put_in_if moved (code, io) at src = ok (code, io)

unfoldable pub iobuf_insert : (moved : Bool) → Iobuf → ℕ → Bytes → Result (Code × Iobuf)
unfolding put_in_if
iobuf_insert moved io at src =
    if ltb io.left (length src)
    then put_in_if moved (iobuf_resize io (length src)) at src
    else put_in io at src

unfoldable pub move_p : Code × Iobuf → Code × Iobuf
move_p (success, io) = (
  success,
  record { data_ = io.data_; r = io.r; p = length io.data_; left = io.left; bsize = io.bsize },
)
move_p (code, io) = (code, io)

-- The length of the answer that begins at `p` is put before it.
unfoldable pub iobuf_add_len_tag : (moved : Bool) → Iobuf → Result (Code × Iobuf)
unfolding iobuf_insert move_p
iobuf_add_len_tag moved io =
    iobuf_insert moved io io.p (decimal (length io.data_ - io.p) ++ (b':' ∷ [])) >>= λ x.
    ok (move_p x)
