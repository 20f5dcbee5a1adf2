-- ===== src/Replies.antt =====
-- server/reply.c: the answers of a connection. A request gets a place in the list when it is read, and
-- its answer is put there when it is finished; `gather_replies` moves answers to the output buffer. A
-- work item is an address. The lock of the list is held throughout `add_reply_queuer` and
-- `gather_replies`, and not in `reply_add`: its steps are apart, and another call may come between them.
pub mod Ordered
pub mod Raced
use spocp.Iobuf.{Iobuf, iobuf_addn}
use spocp.Prelude.{
  ℕ, suc, List, [], ◌∷◌, Option, none, some, Bool, false, ◌==◌, ◌||◌, if◌then◌else◌, drop, Result,
  ok, fault, ◌>>=◌,
}

-- `reply_t` without `next`.
pub record QueuedReply : Type 0 where
  pub wi : Option ℕ
  pub buf : Option Iobuf

abbrev pub reply_new : ℕ → QueuedReply
reply_new wi = record { wi = some wi; buf = none }

unfoldable pub reply_push : List QueuedReply → QueuedReply → List QueuedReply
reply_push [] rep = rep ∷ []
reply_push (r ∷ head) rep = r ∷ reply_push head rep

unfoldable pub add_reply_queuer : List QueuedReply → ℕ → List QueuedReply
unfolding reply_push
add_reply_queuer head wi = reply_push head (reply_new wi)

unfoldable pub is_for : Option ℕ → ℕ → Bool
is_for none wi = false
is_for (some w) wi = w == wi

-- `reply_add` until it has put the buffer into the place of the work item: the list, or none if there is
-- no place.
unfoldable pub store_reply : ℕ → Iobuf → List QueuedReply → Option (List QueuedReply)
unfolding is_for
store_reply wi b [] = none
store_reply wi b (r ∷ head) =
    let rest = store_reply wi b head in
    if is_for r.wi wi
    then some (record { wi = r.wi; buf = some b } ∷ head)
    else elim rest [ none ↦ none | some h ↦ some (r ∷ h) ]

-- `reply_add` from there on: it reads the place and takes the work item off it. If the place is not in the
-- list any more, it was released.
unfoldable pub close_reply : ℕ → List QueuedReply → Result (List QueuedReply)
unfolding is_for
close_reply wi [] = fault
close_reply wi (r ∷ head) =
    let rest = close_reply wi head in
    if is_for r.wi wi
    then ok (record { wi = none; buf = r.buf } ∷ head)
    else rest >>= λ h. ok (r ∷ h)

unfoldable pub has_place : ℕ → List QueuedReply → Bool
unfolding is_for
has_place wi [] = false
has_place wi (r ∷ head) = is_for r.wi wi || has_place wi head

-- The steps without a call between them: the list, and the buffer that is left to the work item. The buffer
-- is read for the log, so it must not be null.
unfoldable pub reply_add :
    List QueuedReply → ℕ → Option Iobuf → Result (List QueuedReply × Option Iobuf)
unfolding store_reply close_reply has_place
reply_add head wi none = if has_place wi head then fault else ok (head, none)
reply_add head wi (some b) = elim (store_reply wi b head) [
  | none ↦ ok (head, some b)
  | some h ↦ close_reply wi h >>= λ h'. ok (h', none)
]

-- The number of answers, the output buffer and the list. The code of `iobuf_addn` is not looked at.
unfoldable pub gather_replies : Iobuf → List QueuedReply → Result (ℕ × Iobuf × List QueuedReply)
gather_replies out [] = ok (0, out, [])
gather_replies out (r ∷ head) = elim r.buf [
  | none ↦ ok (0, out, r ∷ head)
  | some b ↦ iobuf_addn out (drop b.r b.data_) >>= λ x.
      gather_replies x.1 head >>= λ y. ok (suc y.0, y.1, y.2)
]
