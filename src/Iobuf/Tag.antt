-- ===== src/Iobuf/Tag.antt =====
-- server/iobuf.c: the lengths that are put before octet strings and answers.
use spocp.Iobuf.Grow.{IsIobuf, Appended, Overflows, append-Appended, Appended-outcomes}
use spocp.Iobuf.{
  Iobuf, append, digits, lenfield, iobuf_add_octet, put_in, iobuf_insert, move_p, iobuf_add_len_tag,
  iobuf_shift, skip,
}
use spocp.Prelude.{
  ℕ, zero, suc, ◌+◌, ◌-◌, ◌/◌, ◌<◌, ◌≤◌, Bytes, [], ◌∷◌, ◌++◌, Bool, true, false, ltb, leb, ◌==◌,
  length, length-append, take, drop, append_assoc, append-nil, take-append, drop-append, ok,
  success, buf_overflow, ◌≡◌, refl, sym, ap, ap₂, subst, ◌∙◌, ◌⊎◌, inl, inr, Bool-cases, arith,
}
use spocp.Sexp.Decimal.{decimal, decimal_loop}
use spocp.Sexp.Token.{canonical, get_str-canonical}
use spocp.Sexp.{get_str, piece}

digits_small : (n : ℕ) → ltb n 10 ≡ true → digits n ≡ 1
unfolding digits
digits_small n h = ground (arith, h)

digits_step : (n : ℕ) → ltb n 10 ≡ false → n < 1000000 → digits n ≡ digits (n / 10) + 1
unfolding digits
digits_step n h small = ground (arith, h, small)

length-decimal_loop :
    (fuel n : ℕ) → n < fuel → n < 1000000 → length (decimal_loop fuel n) ≡ digits n
unfolding decimal_loop
length-decimal_loop zero n h small = absurd (omega (arith, h))
length-decimal_loop (suc fuel) n h small = elim (Bool-cases (ltb n 10)) [
  | inl one ↦ rw (one, decimal_loop) (sym (digits_small n one))
  | inr more ↦
      rw (more, decimal_loop)
        (length-append (decimal_loop fuel (n / 10)) _
          ∙ omega (
            arith,
            length-decimal_loop fuel (n / 10) (ground (arith, h, more)) (omega (arith, small)),
            digits_step n more small,
          ))
]

digits_bound : (n : ℕ) → digits n ≤ 6
unfolding digits
digits_bound n = ground arith

take_all : (n : ℕ) (l : Bytes) → length l ≤ n → take n l ≡ l
take_all zero [] h = refl
take_all zero (x ∷ l) h = absurd (omega (arith, h))
take_all (suc n) [] h = refl
take_all (suc n) (x ∷ l) h = ap (λ m. x ∷ m) (take_all n l (omega (arith, h)))

module _ (s : Bytes) (small : length s < 1000000) where
  length-decimal : length (decimal (length s)) ≡ digits (length s)
  length-decimal =
      unfold decimal in length-decimal_loop (suc (length s)) (length s) (omega arith) small

  lenfield_lem : lenfield s ≡ decimal (length s) ++ (b':' ∷ [])
  lenfield_lem = take_all 7 (decimal (length s) ++ (b':' ∷ [])) (
      omega (
        arith,
        length-append (decimal (length s)) (b':' ∷ []),
        length-decimal,
        digits_bound (length s),
      ))

  length-lenfield : length (lenfield s) ≡ digits (length s) + 1
  length-lenfield =
      ap length lenfield_lem
      ∙ omega (arith, length-append (decimal (length s)) (b':' ∷ []), length-decimal)

  lenfield-canonical : lenfield s ++ s ≡ canonical s
  lenfield-canonical =
      ap (λ l. l ++ s) lenfield_lem ∙ append_assoc (decimal (length s)) (b':' ∷ []) s

pub iobuf_add_octet-Appended :
    (io : Iobuf) (c : ℕ) (s : Bytes)
    → IsIobuf io
    → length (c ∷ s) < 1000000
    → Appended io (canonical (c ∷ s)) (iobuf_add_octet io (c ∷ s))
unfolding iobuf_add_octet
iobuf_add_octet-Appended io c s wf small =
    let tagged : (length (lenfield (c ∷ s)) == digits (length (c ∷ s)) + 1) ≡ true =
      ground (arith, length-lenfield (c ∷ s) small) in
    rw tagged (
      subst (λ l. Appended io l (append io (lenfield (c ∷ s) ++ (c ∷ s))))
        (lenfield-canonical (c ∷ s) small) (append-Appended io (lenfield (c ∷ s) ++ (c ∷ s)) wf))

-- Octets of less than a million bytes that `iobuf_add_octet` has put into a well-formed buffer are read
-- back by `get_str` from where writing went on, with nothing behind them, and what was in the buffer is
-- as before; or SPOCP_BUF_OVERFLOW is returned, and nothing is put into the buffer, which has less left
-- than the octets with their length take, and may not grow by what is missing.
pub get_str-iobuf_add_octet :
    (io : Iobuf) (c : ℕ) (s : Bytes)
    → IsIobuf io
    → length (c ∷ s) < 1000000
    → ((io' : Iobuf) × (iobuf_add_octet io (c ∷ s) ≡ ok (success, io'))
        × (take (length io.data_) io'.data_ ≡ io.data_)
        × (get_str (drop (length io.data_) io'.data_) ≡ ok (piece (c ∷ s), [])))
      ⊎ ((iobuf_add_octet io (c ∷ s) ≡ ok (buf_overflow, io)) × Overflows io (canonical (c ∷ s)))
get_str-iobuf_add_octet io c s wf small =
    elim (Appended-outcomes io (canonical (c ∷ s)) (iobuf_add_octet io (c ∷ s))
      (iobuf_add_octet-Appended io c s wf small)) [
        | inl (io', e, w) ↦ inl (
          io',
          e,
          ap (take (length io.data_)) w.data_ ∙ take-append io.data_ (canonical (c ∷ s)),
          ap (λ l. get_str (drop (length io.data_) l)) w.data_
              ∙ ap get_str
                  (drop-append io.data_ (canonical (c ∷ s)) ∙ sym (append-nil (canonical (c ∷ s))))
              ∙ get_str-canonical (c ∷ s) []
                  (record { not_empty = omega arith; fits = omega (arith, small) }),
        )
        | inr e ↦ inr e
      ]

-- The buffer with bytes put in.
abbrev inserted : Iobuf → ℕ → Bytes → Iobuf
inserted io at src = record {
  data_ = take at io.data_ ++ (src ++ drop at io.data_);
  r = io.r;
  p = io.p;
  left = io.left - length src;
  bsize = io.bsize;
}

iobuf_insert-room :
    (moved : Bool) (io : Iobuf) (at : ℕ) (src : Bytes)
    → IsIobuf io
    → length src ≤ io.left
    → iobuf_insert moved io at src ≡ ok (success, inserted io at src)
unfolding iobuf_insert put_in
iobuf_insert-room moved io at src wf enough =
    let free : ltb io.left (length src) ≡ false = ground (arith, enough) in
    let fits : leb (length io.data_ + length src) io.bsize ≡ true =
      ground (arith, enough, wf.room) in
    rw (free, fits) refl

abbrev tag_of : Bytes → Bytes
tag_of answer = decimal (length answer) ++ (b':' ∷ [])

-- With room for the length, `iobuf_add_len_tag` puts the length of the answer before it, in decimal
-- digits and a colon, and the next answer begins at the end; what stands before the answer is as it was.
pub iobuf_add_len_tag_lem :
    (moved : Bool) (io : Iobuf) (before answer : Bytes)
    → IsIobuf io
    → io.data_ ≡ before ++ answer
    → io.p ≡ length before
    → length (decimal (length answer)) < io.left
    → (io' : Iobuf) × (iobuf_add_len_tag moved io ≡ ok (success, io'))
      × IsIobuf io'
      × (io'.data_ ≡ before ++ canonical answer)
      × (io'.p ≡ length io'.data_)
unfolding iobuf_add_len_tag move_p
iobuf_add_len_tag_lem moved io before answer wf parts at_p room =
    let len : length io.data_ - io.p ≡ length answer =
      omega (arith, ap length parts, length-append before answer, at_p) in
    let head : take io.p io.data_ ≡ before =
      ap (λ n. take n io.data_) at_p
      ∙ ap (take (length before)) parts
      ∙ take-append before answer in
    let tail : drop io.p io.data_ ≡ answer =
      ap (λ n. drop n io.data_) at_p
      ∙ ap (drop (length before)) parts
      ∙ drop-append before answer in
    let long : length (tag_of answer) ≤ io.left =
      omega (arith, room, length-append (decimal (length answer)) (b':' ∷ [])) in
    let done : iobuf_insert moved io io.p (decimal (length io.data_ - io.p) ++ (b':' ∷ []))
        ≡ ok (success, inserted io io.p (tag_of answer)) =
      ap (λ n. iobuf_insert moved io io.p (decimal n ++ (b':' ∷ []))) len
      ∙ iobuf_insert-room moved io io.p (tag_of answer) wf long in
    let whole : take io.p io.data_ ++ (tag_of answer ++ drop io.p io.data_)
        ≡ before ++ canonical answer =
      ap₂ (λ a b. a ++ (tag_of answer ++ b)) head tail
      ∙ ap (λ l. before ++ l) (append_assoc (decimal (length answer)) (b':' ∷ []) answer) in
    let tag_length = length-append (decimal (length answer)) (b':' ∷ []) in
    let sum : length (take io.p io.data_ ++ (tag_of answer ++ drop io.p io.data_))
        ≡ length before + length (decimal (length answer)) + 1 + length answer =
      ap length whole
      ∙ omega (
        arith,
        length-append before (canonical answer),
        length-append (decimal (length answer)) (b':' ∷ answer),
      ) in
    (
      (move_p (success, inserted io io.p (tag_of answer))).1,
      rw done refl,
      record {
        room =
            omega
              (arith, sum, long, wf.room, tag_length, ap length parts, length-append before answer);
        behind = omega (arith, sum, wf.behind, ap length parts, length-append before answer);
      },
      whole,
      refl,
    )

-- `iobuf_shift` where bytes are left behind the white space: `p` is put as far behind the start as it
-- was before the end. An answer that began at the end, all before it tagged, begins at the start, so
-- the next length is put before bytes that have one.
pub iobuf_shift-p :
    (io : Iobuf) (c : ℕ) (s : Bytes)
    → IsIobuf io
    → skip (drop io.r io.data_) ≡ c ∷ s
    → io.p ≡ length io.data_
    → ((iobuf_shift io).p ≡ 0) × (0 < length (iobuf_shift io).data_)
unfolding iobuf_shift
iobuf_shift-p io c s wf rest at_end = rw (rest, iobuf_shift) (omega (arith, at_end), omega arith)
