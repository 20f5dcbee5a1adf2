-- ===== src/Replies/Raced.antt =====
-- server/reply.c: what comes between the steps of `reply_add`.
use spocp.Iobuf.{Iobuf, iobuf_addn}
use spocp.Prelude.{
  ℕ, suc, List, [], ◌∷◌, none, some, false, true, drop, Code, Result, ok, err, fault, unfinished,
  ◌>>=◌, ◌≡◌, refl, sym, ap, subst, Bool, ==_refl, ◌∙◌, Bool-cases, inl, inr, Option,
}
use spocp.Replies.{QueuedReply, is_for, has_place, store_reply, close_reply, gather_replies}

-- A place that is not in the list is read after it was released.
close_reply_gone :
    (w : ℕ) (head : List QueuedReply) → has_place w head ≡ false → close_reply w head ≡ fault
unfolding has_place close_reply
close_reply_gone w [] h = refl
close_reply_gone w (r ∷ head) h = elim (Bool-cases (is_for r.wi w)) [
  | inl here ↦ absurd (let k = (rw here at h) in cc)
  | inr other ↦ simp (other, close_reply_gone w head (rw other at h))
]

-- Gathering only takes places away.
abbrev Gone : ℕ → Result (ℕ × Iobuf × List QueuedReply) → Type 0
Gone w (ok (n, out, head)) = has_place w head ≡ false
Gone w _ = Unit

counted-Gone :
    (w : ℕ) (r : Result (ℕ × Iobuf × List QueuedReply))
    → Gone w r
    → Gone w (r >>= λ y. ok (suc y.0, y.1, y.2))
counted-Gone w (ok (n, out, head)) h = h
counted-Gone w (err c) h = tt
counted-Gone w fault h = tt
counted-Gone w unfinished h = tt

written-Gone :
    (w : ℕ) (head : List QueuedReply) (m : Result (Code × Iobuf))
    → ((out : Iobuf) → Gone w (gather_replies out head))
    → Gone w (m >>= λ x. gather_replies x.1 head >>= λ y. ok (suc y.0, y.1, y.2))
written-Gone w head (ok (c, out)) h = counted-Gone w (gather_replies out head) (h out)
written-Gone w head (err c) h = tt
written-Gone w head fault h = tt
written-Gone w head unfinished h = tt

gather_replies-Gone :
    (w : ℕ) (head : List QueuedReply)
    → has_place w head ≡ false
    → (out : Iobuf) → Gone w (gather_replies out head)
unfolding gather_replies has_place
gather_replies-Gone w [] h out = refl
gather_replies-Gone w (r ∷ head) h out =
    by_buf r.buf (gather_replies-Gone w head (others (is_for r.wi w) refl))
  where
    others : (t : Bool) → is_for r.wi w ≡ t → has_place w head ≡ false
    others true here = absurd (let k = (rw here at h) in cc)
    others false other = rw other at h

    by_buf :
        (buf : Option Iobuf)
        → ((out : Iobuf) → Gone w (gather_replies out head))
        → Gone w (elim buf [
          | none ↦ ok (0, out, r ∷ head)
          | some b ↦ iobuf_addn out (drop b.r b.data_) >>= λ x.
              gather_replies x.1 head >>= λ y. ok (suc y.0, y.1, y.2)
        ])
    by_buf none k = h
    by_buf (some b) k = written-Gone w head (iobuf_addn out (drop b.r b.data_)) k

-- The first request waits for a work item, and no other does. If answers are gathered after `reply_add` has
-- put the answer into its place, and before it goes on, it reads and writes a place that was released.
pub close_reply-gather_replies :
    (w n : ℕ) (b out out' : Iobuf) (r : QueuedReply) (head h h' : List QueuedReply)
    → r.wi ≡ some w
    → has_place w head ≡ false
    → store_reply w b (r ∷ head) ≡ some h
    → gather_replies out h ≡ ok (n, out', h')
    → close_reply w h' ≡ fault
unfolding store_reply is_for gather_replies
close_reply-gather_replies w n b out out' r head h h' waits others stored gathered =
    let place : List QueuedReply = record { wi = r.wi; buf = some b } ∷ head in
    let found : is_for r.wi w ≡ true = simp (is_for, waits, ==_refl w) in
    let here : store_reply w b (r ∷ head) ≡ some place = simp (found) in
    let same : place ≡ h = (let k = sym here ∙ stored in cc) in
    let left : gather_replies out place ≡ ok (n, out', h') =
      ap (gather_replies out) same ∙ gathered in
    let gone : Gone w (gather_replies out place) =
      written-Gone w head (iobuf_addn out (drop b.r b.data_)) (gather_replies-Gone w head others) in
    close_reply_gone w h' (subst (Gone w) left gone)
