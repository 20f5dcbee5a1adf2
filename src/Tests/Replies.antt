-- ===== src/Tests/Replies.antt =====
-- Concrete requests and answers for the theorems on server/reply.c.
use spocp.Iobuf.Grow.{IsIobuf, IsText}
use spocp.Iobuf.{iobuf_addn, append, iobuf_resize, write_if, Iobuf}
use spocp.Prelude.{
  ℕ, zero, Bytes, Bool-cases, inl, inr, ◌==◌, if◌then◌else◌, suc, List, [], ◌∷◌, codes, none, some,
  ok, fault, ◌>>=◌, ◌≡◌, refl, arith,
}
use spocp.Replies.Ordered.{
  queued, answered, gathered, Event, text, Runs, replies_in_order, gather_replies_lost,
}
use spocp.Replies.Raced.{close_reply-gather_replies}
use spocp.Replies.{QueuedReply, has_place, is_for, store_reply, close_reply, gather_replies}

abbrev output : Iobuf
output = record { data_ = []; r = 0; p = 0; left = 7; bsize = 8 }

output-IsIobuf : IsIobuf output
output-IsIobuf = record { room = omega arith; behind = omega arith }

abbrev answer : ℕ → Iobuf
answer w =
    if w == 1
    then record { data_ = codes "ok"; r = 0; p = 0; left = 1; bsize = 4 }
    else record { data_ = codes " no"; r = 1; p = 0; left = 0; bsize = 4 }

answer-IsText : (w : ℕ) → IsText (text (answer w))
answer-IsText w = elim (Bool-cases (w == 1)) [
  | inl first ↦ rw first refl
  | inr other ↦ rw other refl
]

-- The second request is answered first.
abbrev events : List Event
events = queued 1 ∷ queued 2 ∷ answered 2 ∷ gathered ∷ answered 1 ∷ queued 3 ∷ gathered ∷ []

replies_in_order_example : Runs answer answer-IsText events [] [] output
replies_in_order_example = replies_in_order answer answer-IsText events output output-IsIobuf

dots : ℕ → Bytes
dots zero = []
dots (suc n) = b'.' ∷ dots n

-- As large as it may be, with 2 bytes left.
abbrev full : Iobuf
full = record { data_ = dots 262141; r = 0; p = 0; left = 2; bsize = 262144 }

abbrev denial : Iobuf
denial = record { data_ = codes "denied"; r = 0; p = 0; left = 1; bsize = 8 }

gather_replies_lost_example :
    gather_replies full (record { wi = none; buf = some denial } ∷ [])
    ≡ (gather_replies full [] >>= λ y. ok (suc y.0, y.1, y.2))
gather_replies_lost_example = gather_replies_lost full denial [] refl refl (omega arith)

-- The answer of the work item 5 is put into its place, and gathered before `reply_add` goes on.
abbrev waiting : QueuedReply
waiting = record { wi = some 5; buf = none }

stored : store_reply 5 denial (waiting ∷ []) ≡ some (record { wi = some 5; buf = some denial } ∷ [])
unfolding store_reply is_for
stored = refl

gathered_full :
    gather_replies full (record { wi = some 5; buf = some denial } ∷ []) ≡ ok (1, full, [])
unfolding gather_replies iobuf_addn append iobuf_resize write_if
gathered_full = refl

close_reply-gather_replies_example : close_reply 5 [] ≡ fault
close_reply-gather_replies_example =
    close_reply-gather_replies 5 1 denial full full waiting []
      (record { wi = some 5; buf = some denial } ∷ []) [] refl (unfold has_place in refl) stored
      gathered_full
