-- ===== src/Tests/Buffers.antt =====
-- Concrete buffers for the theorems on server/iobuf.c.
use spocp.Iobuf.Grow.{IsIobuf, Appended, Overflows, iobuf_add-Appended}
use spocp.Iobuf.Queue.{add, addn, shift, calls, Becomes, calls-Becomes}
use spocp.Iobuf.Tag.{get_str-iobuf_add_octet}
use spocp.Iobuf.{Iobuf, iobuf_add, iobuf_add_octet, skip, iobuf_resize}
use spocp.Prelude.{
  List, Code, [], ◌∷◌, codes, length, take, drop, ok, success, buf_overflow, ◌≡◌, refl, ◌⊎◌, arith,
}
use spocp.Sexp.Decimal.{decimal}
use spocp.Sexp.{piece, get_str}

-- A small buffer with " ok", of which nothing was read, and 2 bytes left.
abbrev small : Iobuf
small = record { data_ = codes " ok"; r = 0; p = 1; left = 2; bsize = 6 }

small-IsIobuf : IsIobuf small
small-IsIobuf = record { room = omega arith; behind = omega arith }

iobuf_add-Appended_example : Appended small (codes "rule") (iobuf_add small (codes "rule"))
iobuf_add-Appended_example = iobuf_add-Appended small (codes "rule") small-IsIobuf

calls-Becomes_example :
    (rs : List Code) × (io' : Iobuf) × (calls
        (add (codes "rule") ∷ addn (codes "ok") ∷ shift ∷ [])
        small
      ≡ ok (rs, io'))
    × IsIobuf io'
    × Becomes (add (codes "rule") ∷ addn (codes "ok") ∷ shift ∷ []) rs small io'
calls-Becomes_example =
    calls-Becomes (add (codes "rule") ∷ addn (codes "ok") ∷ shift ∷ []) small small-IsIobuf

get_str-iobuf_add_octet_example :
    ((io' : Iobuf) × (iobuf_add_octet small (codes "foo") ≡ ok (success, io'))
      × (take 3 io'.data_ ≡ codes " ok")
      × (get_str (drop 3 io'.data_) ≡ ok (piece (codes "foo"), [])))
    ⊎ ((iobuf_add_octet small (codes "foo") ≡ ok (buf_overflow, small))
        × Overflows small (codes "3:foo"))
unfolding decimal
get_str-iobuf_add_octet_example =
    get_str-iobuf_add_octet small b'f' (codes "oo") small-IsIobuf (omega arith)

one_digit : length (decimal 2) ≡ 1
unfolding decimal
one_digit = refl

-- All of it has its length.
abbrev tagged : Iobuf
tagged = record { data_ = codes "2:ok"; r = 1; p = 4; left = 1; bsize = 6 }

tagged-IsIobuf : IsIobuf tagged
tagged-IsIobuf = record { room = omega arith; behind = omega arith }

no_white : skip (codes ":ok") ≡ codes ":ok"
unfolding skip
no_white = refl

-- Just below SPOCP_MAXBUF a buffer grows above it.
above_maxbuf :
    let io : Iobuf = record { data_ = []; r = 0; p = 0; left = 262133; bsize = 262134 } in
    iobuf_resize io 5
    ≡ (success, record { data_ = []; r = 0; p = 0; left = 266229; bsize = 266230 })
unfolding iobuf_resize
above_maxbuf = refl
