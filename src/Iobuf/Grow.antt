-- ===== src/Iobuf/Grow.antt =====
-- server/iobuf.c: what is written finds room, or the buffer may not grow.
use spocp.Iobuf.{
  Iobuf, maxbuf, iobufsize, iobuf_resize, with_size, write, write_if, append, iobuf_add, iobuf_addn,
}
use spocp.Prelude.{
  ℕ, ◌+◌, ◌-◌, ◌<◌, ◌≤◌, Bytes, [], ◌∷◌, ◌++◌, true, false, ltb, ◌==◌, length, length-append,
  Result, Code, ok, success, buf_overflow, ◌≡◌, refl, sym, ap, err, fault, unfinished, subst,
  append-nil, ◌⊎◌, denied, exists_already, operations_error, syntax_error, missing_char,
  unknown_type, not_supported, unavailable, inl, inr, Bool-cases, arith,
}

-- The bytes, those left and one place for a 0 are the whole buffer, and reading has not passed the end.
pub record IsIobuf (io : Iobuf) : Type 0 where
  pub room : length io.data_ + io.left + 1 ≡ io.bsize
  pub behind : io.r ≤ length io.data_

-- The buffer may not grow by so many bytes.
abbrev pub Refused : Iobuf → ℕ → Type 0
Refused io increase = (io.bsize ≡ maxbuf) ⊎ (maxbuf < io.bsize + increase)

-- What `iobuf_resize` makes of a buffer that is to grow: it is larger by what is asked for at least,
-- or it is as it was.
abbrev pub Resized : Iobuf → ℕ → Code × Iobuf → Type 0
Resized io increase (success, io') =
    (more : ℕ) × (io' ≡ with_size io more)
    × (increase ≤ more)
    × (io.bsize + increase ≤ maxbuf)
    × (more ≤ iobufsize ⊎ (more ≡ increase))
Resized io increase (buf_overflow, io') = (io' ≡ io) × Refused io increase
Resized io increase _ = ⊥

pub iobuf_resize-Resized :
    (io : Iobuf) (increase : ℕ) → 0 < increase → Resized io increase (iobuf_resize io increase)
unfolding iobuf_resize
iobuf_resize-Resized io increase some_bytes = elim (Bool-cases (io.bsize == maxbuf)) [
  | inl full ↦ rw full (refl, inl (ground (arith, full)))
  | inr free ↦ elim (Bool-cases (increase == 0)) [
    | inl none_asked ↦ absurd (ground (arith, none_asked, some_bytes))
    | inr asked ↦ elim (Bool-cases (ltb maxbuf (io.bsize + increase))) [
      | inl over ↦ rw (free, asked, over) (refl, inr (ground (arith, over)))
      | inr fits ↦ elim (Bool-cases (ltb increase iobufsize)) [
        | inl little ↦
            rw (free, asked, fits, little)
              (iobufsize, refl, ground (arith, little), ground (arith, fits), inl (omega arith))
        | inr much ↦
            rw (free, asked, fits, much)
              (increase, refl, omega arith, ground (arith, fits), inr refl)
      ]
    ]
  ]
]

-- What a write leaves: the bytes stand at the end of what was in the buffer, which is well formed, is
-- read from where it was, and has its size or less than a block above the largest.
pub record Written (io : Iobuf) (s : Bytes) (io' : Iobuf) : Type 0 where
  pub well_formed : IsIobuf io'
  pub data_ : io'.data_ ≡ io.data_ ++ s
  pub r : io'.r ≡ io.r
  pub p : io'.p ≡ io.p
  pub bsize : (io'.bsize ≡ io.bsize) ⊎ (io'.bsize < maxbuf + iobufsize)

-- The bytes were written; or the buffer is as it was, has too few bytes left, and may not grow.
abbrev pub Appended : Iobuf → Bytes → Result (Code × Iobuf) → Type 0
Appended io s (ok (success, io')) = Written io s io'
Appended io s (ok (buf_overflow, io')) =
    (io' ≡ io) × (io.left < length s) × Refused io (length s - io.left)
Appended io s _ = ⊥

after_write : Iobuf → Bytes → Iobuf
after_write io s = record {
  data_ = io.data_ ++ s;
  r = io.r;
  p = io.p;
  left = io.left - length s;
  bsize = io.bsize;
}

-- With enough bytes left, a write does not go beyond the buffer.
write-room :
    (io : Iobuf) (s : Bytes)
    → IsIobuf io
    → length s ≤ io.left
    → (write io s ≡ ok (success, after_write io s)) × IsIobuf (after_write io s)
unfolding write after_write
write-room io s wf enough =
    let room : ltb (length io.data_ + length s) io.bsize ≡ true = ground (arith, wf.room, enough) in
    (
      rw room refl,
      record {
        room = omega (arith, wf.room, enough, length-append io.data_ s);
        behind = omega (arith, wf.behind, length-append io.data_ s);
      },
    )

with_size-IsIobuf : (io : Iobuf) (more : ℕ) → IsIobuf io → IsIobuf (with_size io more)
with_size-IsIobuf io more wf = record { room = omega (arith, wf.room); behind = wf.behind }

grown :
    (io : Iobuf) (s : Bytes) (x : Code × Iobuf)
    → IsIobuf io
    → io.left < length s
    → Resized io (length s - io.left) x
    → Appended io s (write_if x s)
unfolding write_if after_write
grown io s (success, io') wf short (more, same, enough, fits, small) =
    let (written, wf') =
      write-room (with_size io more) s (with_size-IsIobuf io more wf) (omega (arith, enough)) in
    subst (λ b. Appended io s (write b s)) (sym same)
      (subst (Appended io s) (sym written) (record {
        well_formed = wf';
        data_ = refl;
        r = refl;
        p = refl;
        bsize = inr (elim small [
          | inl block ↦ omega (arith, fits, block, short)
          | inr exact ↦ omega (arith, fits, exact)
        ]);
      }))
grown io s (buf_overflow, io') wf short (same, refused) = (same, short, refused)
grown io s (denied, io') wf short h = absurd h
grown io s (exists_already, io') wf short h = absurd h
grown io s (operations_error, io') wf short h = absurd h
grown io s (syntax_error, io') wf short h = absurd h
grown io s (missing_char, io') wf short h = absurd h
grown io s (unknown_type, io') wf short h = absurd h
grown io s (not_supported, io') wf short h = absurd h
grown io s (unavailable, io') wf short h = absurd h

-- `append` to a well-formed buffer never writes beyond it.
pub append-Appended : (io : Iobuf) (s : Bytes) → IsIobuf io → Appended io s (append io s)
unfolding append after_write
append-Appended io s wf = elim (Bool-cases (ltb io.left (length s))) [
  | inl short ↦ rw short (
      grown io s (iobuf_resize io (length s - io.left)) wf (ground (arith, short))
        (iobuf_resize-Resized io (length s - io.left) (ground (arith, short))))
  | inr enough ↦
      let (written, wf') = write-room io s wf (ground (arith, enough)) in
      rw enough (
        subst (Appended io s) (sym written)
          (record { well_formed = wf'; data_ = refl; r = refl; p = refl; bsize = inl refl }))
]

-- `iobuf_add` of a string to a well-formed buffer: it is written, whole, and the buffer is larger if need
-- be, but never by a block or more above SPOCP_MAXBUF; or SPOCP_BUF_OVERFLOW is returned, nothing is
-- written, and the buffer has too few bytes left and is as large as it may be, or would be too large.
pub iobuf_add-Appended : (io : Iobuf) (s : Bytes) → IsIobuf io → Appended io s (iobuf_add io s)
unfolding iobuf_add
iobuf_add-Appended io [] wf = record {
  well_formed = wf;
  data_ = sym (append-nil io.data_);
  r = refl;
  p = refl;
  bsize = inl refl;
}
iobuf_add-Appended io (c ∷ s) wf = append-Appended io (c ∷ s) wf

-- `iobuf_addn` writes nothing if there is no byte, or the first one is 0.
abbrev pub IsText : Bytes → Type 0
IsText [] = ⊥
IsText (c ∷ s) = (c == 0) ≡ false

pub iobuf_addn-Appended :
    (io : Iobuf) (s : Bytes) → IsIobuf io → IsText s → Appended io s (iobuf_addn io s)
unfolding iobuf_addn
iobuf_addn-Appended io [] wf h = absurd h
iobuf_addn-Appended io (c ∷ s) wf h = rw h (append-Appended io (c ∷ s) wf)

-- Bytes that are more than there are left, where the buffer may not grow by those that are missing.
abbrev pub Overflows : Iobuf → Bytes → Type 0
Overflows io s = (io.left < length s) × Refused io (length s - io.left)

-- The two outcomes of a write.
pub Appended-outcomes :
    (io : Iobuf) (s : Bytes) (m : Result (Code × Iobuf))
    → Appended io s m
    → ((io' : Iobuf) × (m ≡ ok (success, io')) × Written io s io')
      ⊎ ((m ≡ ok (buf_overflow, io)) × Overflows io s)
Appended-outcomes io s (ok (success, io')) h = inl (io', refl, h)
Appended-outcomes io s (ok (buf_overflow, io')) h =
    inr (ap (λ b. ok (buf_overflow, b)) h.0, (h.1, h.2))
Appended-outcomes io s (ok (denied, io')) h = absurd h
Appended-outcomes io s (ok (exists_already, io')) h = absurd h
Appended-outcomes io s (ok (operations_error, io')) h = absurd h
Appended-outcomes io s (ok (syntax_error, io')) h = absurd h
Appended-outcomes io s (ok (missing_char, io')) h = absurd h
Appended-outcomes io s (ok (unknown_type, io')) h = absurd h
Appended-outcomes io s (ok (not_supported, io')) h = absurd h
Appended-outcomes io s (ok (unavailable, io')) h = absurd h
Appended-outcomes io s (err e) h = absurd h
Appended-outcomes io s fault h = absurd h
Appended-outcomes io s unfinished h = absurd h
