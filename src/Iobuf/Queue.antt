-- ===== src/Iobuf/Queue.antt =====
-- server/iobuf.c: a buffer is a queue of the bytes that were not read.
use spocp.Iobuf.Grow.{
  IsIobuf, Written, IsText, Overflows, Appended-outcomes, iobuf_add-Appended, iobuf_addn-Appended,
}
use spocp.Iobuf.{Iobuf, iobuf_add, iobuf_addn, iobuf_shift, iobuf_flush, skip, whitespace}
use spocp.Prelude.{
  ℕ, zero, suc, ◌-◌, ◌≤◌, Bytes, List, [], ◌∷◌, ◌++◌, length, drop, length-drop, Result, Code,
  success, buf_overflow, ok, ◌>>=◌, sym, ◌==◌, ◌≡◌, refl, ap, ◌∙◌, ◌⊎◌, inl, inr, Bool-cases, arith,
}

-- The bytes that were not read.
abbrev pub unread : Iobuf → Bytes
unread io = drop io.r io.data_

-- A call on a buffer by its connection, of `iobuf_add`, `iobuf_addn`, `iobuf_shift` or `iobuf_flush`.
pub data Call : Type 0 where
  add addn : Bytes → Call
  shift flush : Call

-- The code and the buffer after a call; the last two return none, which is a success here.
unfoldable pub call : Call → Iobuf → Result (Code × Iobuf)
call (add s) io = iobuf_add io s
call (addn s) io = iobuf_addn io s
call shift io = ok (success, iobuf_shift io)
call flush io = ok (success, iobuf_flush io)

unfoldable pub calls : List Call → Iobuf → Result (List Code × Iobuf)
unfolding call
calls [] io = ok ([], io)
calls (c ∷ cs) io = call c io >>= λ x. calls cs x.1 >>= λ y. ok (x.0 ∷ y.0, y.1)

-- What a call that returns a code promises of the queue: bytes are added at its end, with a success; or
-- they are refused as a whole, with SPOCP_BUF_OVERFLOW, where there are too few bytes left and the buffer
-- may not grow by those that are missing; white space goes from the front; or the queue is emptied.
-- `iobuf_addn` adds nothing if there is no byte or the first one is 0.
abbrev pub Promises : Call → Iobuf → Code → Iobuf → Type 0
Promises (add s) io success io' = unread io' ≡ unread io ++ s
Promises (add s) io buf_overflow io' = (io' ≡ io) × Overflows io s
Promises (add s) io r io' = ⊥
Promises (addn s) io success io' =
    (IsText s × (unread io' ≡ unread io ++ s)) ⊎ ((IsText s → ⊥) × (io' ≡ io))
Promises (addn s) io buf_overflow io' = IsText s × (io' ≡ io) × Overflows io s
Promises (addn s) io r io' = ⊥
Promises shift io r io' = (r ≡ success) × (unread io' ≡ skip (unread io))
Promises flush io r io' = (r ≡ success) × (unread io' ≡ [])

pub data Becomes : List Call → List Code → Iobuf → Iobuf → Type 0 where
  done : {io : Iobuf} → Becomes [] [] io io
  next :
      {c : Call} {r : Code} {cs : List Call} {rs : List Code} {io io1 io' : Iobuf}
      → Promises c io r io1
      → Becomes cs rs io1 io'
      → Becomes (c ∷ cs) (r ∷ rs) io io'

drop-behind : (n : ℕ) (l m : Bytes) → n ≤ length l → drop n (l ++ m) ≡ drop n l ++ m
drop-behind zero l m h = refl
drop-behind (suc n) [] m h = absurd (omega (arith, h))
drop-behind (suc n) (x ∷ l) m h = drop-behind n l m (omega (arith, h))

length-skip : (s : Bytes) → length (skip s) ≤ length s
unfolding skip
length-skip [] = omega arith
length-skip (c ∷ s) = elim (Bool-cases (whitespace c)) [
  | inl white ↦ rw white (omega (arith, length-skip s))
  | inr other ↦ rw other (omega arith)
]

flush-IsIobuf : (io : Iobuf) → IsIobuf io → IsIobuf (iobuf_flush io)
unfolding iobuf_flush
flush-IsIobuf io wf = record { room = omega (arith, wf.room); behind = omega arith }

unread-iobuf_flush : (io : Iobuf) → unread (iobuf_flush io) ≡ []
unfolding iobuf_flush
unread-iobuf_flush io = refl

-- `iobuf_shift` of a well-formed buffer leaves one: white space is gone from the front of the bytes
-- that were not read, and no other byte.
pub iobuf_shift-skip :
    (io : Iobuf)
    → IsIobuf io
    → IsIobuf (iobuf_shift io) × (unread (iobuf_shift io) ≡ skip (unread io))
unfolding iobuf_shift
iobuf_shift-skip io wf = by_rest (skip (drop io.r io.data_)) (length-skip (drop io.r io.data_))
  where
    by_rest :
        (s : Bytes)
        → length s ≤ length (drop io.r io.data_)
        → let io' : Iobuf = elim s [
          | [] ↦ iobuf_flush io
          | c ∷ s ↦ record {
            data_ = c ∷ s;
            r = 0;
            p = length io.data_ - io.p;
            left = io.bsize - length (c ∷ s) - 1;
            bsize = io.bsize;
          }
        ] in
          IsIobuf io' × (unread io' ≡ s)
    by_rest [] h = (flush-IsIobuf io wf, unfold iobuf_flush in refl)
    by_rest (c ∷ s) h = (
      record { room = omega (arith, wf.room, h, length-drop io.r io.data_); behind = omega arith },
      refl,
    )

unread-append :
    {io io' : Iobuf} {s : Bytes} → IsIobuf io → Written io s io' → unread io' ≡ unread io ++ s
unread-append {io} {io'} {s} wf w =
    ap (λ n. drop n io'.data_) w.r
    ∙ ap (λ l. drop io.r l) w.data_
    ∙ drop-behind io.r io.data_ s wf.behind

-- What a call leaves.
abbrev Kept : Call → Iobuf → Type 0
Kept c io =
    (r : Code) × (io' : Iobuf) × (call c io ≡ ok (r, io')) × IsIobuf io' × Promises c io r io'

call-Kept : (c : Call) (io : Iobuf) → IsIobuf io → Kept c io
unfolding call
call-Kept (add s) io wf =
    elim (Appended-outcomes io s (iobuf_add io s) (iobuf_add-Appended io s wf)) [
      | inl (io', e, w) ↦ (success, io', e, w.well_formed, unread-append wf w)
      | inr (e, short) ↦ (buf_overflow, io, e, wf, (refl, short))
    ]
call-Kept (addn []) io wf = (success, io, unfold iobuf_addn in refl, wf, inr (λ h. h, refl))
call-Kept (addn (c ∷ s)) io wf = elim (Bool-cases (c == 0)) [
  | inl zero_first ↦ (
    success,
    io,
    unfold iobuf_addn in rw zero_first refl,
    wf,
    inr (λ h. (let k = sym zero_first ∙ h in cc), refl),
  )
  | inr h ↦
      elim (Appended-outcomes io (c ∷ s) (iobuf_addn io (c ∷ s))
        (iobuf_addn-Appended io (c ∷ s) wf h)) [
          | inl (io', e, w) ↦ (success, io', e, w.well_formed, inl (h, unread-append wf w))
          | inr (e, short) ↦ (buf_overflow, io, e, wf, (h, refl, short))
        ]
]
call-Kept shift io wf =
    let (wf', same) = iobuf_shift-skip io wf in (success, iobuf_shift io, refl, wf', (refl, same))
call-Kept flush io wf =
    (success, iobuf_flush io, refl, flush-IsIobuf io wf, (refl, unread-iobuf_flush io))

-- Any calls of `iobuf_add`, `iobuf_addn`, `iobuf_shift` and `iobuf_flush` on a well-formed buffer end
-- without a write outside it, leave it well formed, and do each, by the code it returns, to the bytes that
-- were not read what it promises of a queue.
pub calls-Becomes :
    (cs : List Call) (io : Iobuf)
    → IsIobuf io
    → (rs : List Code) × (io' : Iobuf) × (calls cs io ≡ ok (rs, io'))
      × IsIobuf io'
      × Becomes cs rs io io'
unfolding calls
calls-Becomes [] io wf = ([], io, refl, wf, done)
calls-Becomes (c ∷ cs) io wf =
    let (r, io1, e1, wf1, p) = call-Kept c io wf in
    let (rs, io', e, wf', q) = calls-Becomes cs io1 wf1 in
    (r ∷ rs, io', rw (e1, e) refl, wf', next p q)
