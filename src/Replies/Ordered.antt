-- ===== src/Replies/Ordered.antt =====
-- server/reply.c: answers leave a connection in the order of its requests.
use spocp.Iobuf.Grow.{IsIobuf, Written, Appended-outcomes, IsText, Overflows, iobuf_addn-Appended}
use spocp.Iobuf.{Iobuf, iobuf_addn, append, write_if, iobuf_resize, maxbuf}
use spocp.Prelude.{
  ℕ, suc, ◌<◌, Bytes, List, [], ◌∷◌, ◌++◌, append_assoc, append-nil, Option, none, some, true,
  Bool-cases, ltb, ◌==◌, drop, length, Result, ok, buf_overflow, ◌>>=◌, ◌≡◌, refl, sym, ap, ◌∙◌,
  ◌⊎◌, inl, inr, arith,
}
use spocp.Replies.{
  QueuedReply, reply_push, add_reply_queuer, is_for, store_reply, close_reply, reply_add,
  gather_replies,
}

-- The bytes of a buffer that were not read.
abbrev pub text : Iobuf → Bytes
text b = drop b.r b.data_

refused_whole :
    (out : Iobuf) (s : Bytes)
    → IsText s
    → out.bsize ≡ maxbuf
    → out.left < length s
    → iobuf_addn out s ≡ ok (buf_overflow, out)
unfolding iobuf_addn append write_if iobuf_resize
refused_whole out [] h full short = absurd h
refused_whole out (c ∷ s) h full short =
    let small : ltb out.left (length (c ∷ s)) ≡ true = ground (arith, short) in
    let at_bound : (out.bsize == maxbuf) ≡ true = ground (arith, full) in
    rw (h, small, at_bound) refl

-- A request is read, is answered, or what is answered goes to the output buffer.
pub data Event : Type 0 where
  queued answered : ℕ → Event
  gathered : Event

-- The requests that are read, in their order.
unfoldable pub requests : List Event → List ℕ
requests [] = []
requests (queued w ∷ es) = w ∷ requests es
requests (answered w ∷ es) = requests es
requests (gathered ∷ es) = requests es

module _ (answer : ℕ → Iobuf) where
  -- What the events do to the list and the output buffer.
  unfoldable pub run : List Event → List QueuedReply → Iobuf → Result (List QueuedReply × Iobuf)
  run [] head out = ok (head, out)
  run (queued w ∷ es) head out = run es (add_reply_queuer head w) out
  run (answered w ∷ es) head out = reply_add head w (some (answer w)) >>= λ x. run es x.0 out
  run (gathered ∷ es) head out = gather_replies out head >>= λ x. run es x.2 x.1

  -- A place is for a request if it waits for it, or has its answer.
  abbrev pub IsFor : QueuedReply → ℕ → Type 0
  IsFor r w = ((r.wi ≡ some w) × (r.buf ≡ none)) ⊎ ((r.wi ≡ none) × (r.buf ≡ some (answer w)))

  -- The places are for these requests, in their order.
  pub data Waits : List QueuedReply → List ℕ → Type 0 where
    no_one : Waits [] []
    one_more :
        {r : QueuedReply} {w : ℕ} {head : List QueuedReply} {ws : List ℕ}
        → IsFor r w
        → Waits head ws
        → Waits (r ∷ head) (w ∷ ws)

  -- The answers of these requests are written one behind the other, and whole, or are refused.
  pub data Sends : List ℕ → Iobuf → Iobuf → Type 0 where
    end_of : {out : Iobuf} → Sends [] out out
    sent :
        {w : ℕ} {ws : List ℕ} {out out1 out' : Iobuf}
        → Written out (text (answer w)) out1
        → Sends ws out1 out'
        → Sends (w ∷ ws) out out'
    refused :
        {w : ℕ} {ws : List ℕ} {out out' : Iobuf}
        → iobuf_addn out (text (answer w)) ≡ ok (buf_overflow, out)
        → Overflows out (text (answer w))
        → Sends ws out out'
        → Sends (w ∷ ws) out out'

  Sends-append :
      {ws vs : List ℕ} {out out1 out' : Iobuf}
      → Sends ws out out1
      → Sends vs out1 out'
      → Sends (ws ++ vs) out out'
  Sends-append end_of k = k
  Sends-append (sent h s) k = sent h (Sends-append s k)
  Sends-append (refused h o s) k = refused h o (Sends-append s k)

  add_reply_queuer-Waits :
      {head : List QueuedReply} {ws : List ℕ} (w : ℕ)
      → Waits head ws
      → Waits (add_reply_queuer head w) (ws ++ (w ∷ []))
  unfolding add_reply_queuer reply_push
  add_reply_queuer-Waits w no_one = one_more (inl (refl, refl)) no_one
  add_reply_queuer-Waits w (one_more h k) = one_more h (add_reply_queuer-Waits w k)

  put_there :
      {v w : ℕ} {head : List QueuedReply} {ws : List ℕ}
      → (v == w) ≡ true
      → Waits head ws
      → Waits (record { wi = none; buf = some (answer w) } ∷ head) (v ∷ ws)
  put_there {v} {w} same k =
      let e : v ≡ w = ground (arith, same) in
      one_more (inr (refl, ap (λ x. some (answer x)) (sym e))) k

  -- There is no place for the work item, or its place has the answer in the end.
  Stored : ℕ → List QueuedReply → List ℕ → Type 0
  Stored w head ws =
      (store_reply w (answer w) head ≡ none)
      ⊎ ((h : List QueuedReply) × (h' : List QueuedReply) × (store_reply w (answer w) head ≡ some h)
          × (close_reply w h ≡ ok h')
          × Waits h' ws)

  store_reply-Stored :
      {head : List QueuedReply} {ws : List ℕ} (w : ℕ) → Waits head ws → Stored w head ws
  unfolding Stored store_reply close_reply is_for
  store_reply-Stored w no_one = inl refl
  store_reply-Stored w (one_more {r} {w = v} {head} (inl (waits, free)) k) =
      elim (Bool-cases (v == w)) [
        | inl same ↦ inr (
          record { wi = r.wi; buf = some (answer w) } ∷ head,
          record { wi = none; buf = some (answer w) } ∷ head,
          simp (waits, same),
          simp (waits, same),
          put_there same k,
        )
        | inr other ↦ elim (store_reply-Stored w k) [
          | inl e ↦ inl (simp (waits, other, e))
          | inr (h, h', e, f, k') ↦ inr (
            r ∷ h,
            r ∷ h',
            simp (waits, other, e),
            simp (waits, other, f),
            one_more (inl (waits, free)) k',
          )
        ]
      ]
  store_reply-Stored w (one_more {r} (inr (done, text_of)) k) = elim (store_reply-Stored w k) [
    | inl e ↦ inl (simp (done, e))
    | inr (h, h', e, f, k') ↦
        inr (r ∷ h, r ∷ h', simp (done, e), simp (done, f), one_more (inr (done, text_of)) k')
  ]

  reply_add-Waits :
      {head : List QueuedReply} {ws : List ℕ} (w : ℕ)
      → Waits head ws
      → (head' : List QueuedReply) × (b : Option Iobuf) × (reply_add head w (some (answer w))
          ≡ ok (head', b))
        × Waits head' ws
  unfolding reply_add Stored
  reply_add-Waits {head} w k = elim (store_reply-Stored w k) [
    | inl e ↦ (head, some (answer w), rw (reply_add, e) refl, k)
    | inr (h, h', e, f, k') ↦ (h', none, rw (reply_add, e) (rw f refl), k')
  ]

  -- What gathering leaves: the places of the first requests are gone.
  pub record Gathers (head : List QueuedReply) (ws : List ℕ) (out : Iobuf) : Type 0 where
    pub n : ℕ
    pub out' : Iobuf
    pub head' : List QueuedReply
    pub gone : List ℕ
    pub pending : List ℕ
    pub returns : gather_replies out head ≡ ok (n, out', head')
    pub parts : ws ≡ gone ++ pending
    pub waits : Waits head' pending
    pub sends : Sends gone out out'
    pub well_formed : IsIobuf out'

  module _ (plain : (w : ℕ) → IsText (text (answer w))) where
    gather_replies-Gathers :
        {head : List QueuedReply} {ws : List ℕ} (out : Iobuf)
        → Waits head ws
        → IsIobuf out
        → Gathers head ws out
    unfolding gather_replies
    gather_replies-Gathers out no_one wf = record {
      n = 0;
      out' = out;
      head' = [];
      gone = [];
      pending = [];
      returns = refl;
      parts = refl;
      waits = no_one;
      sends = end_of;
      well_formed = wf;
    }
    gather_replies-Gathers out (one_more {r} {w} {head} {ws} (inl (waits, free)) k) wf = record {
      n = 0;
      out' = out;
      head' = r ∷ head;
      gone = [];
      pending = w ∷ ws;
      returns = simp (free);
      parts = refl;
      waits = one_more (inl (waits, free)) k;
      sends = end_of;
      well_formed = wf;
    }
    gather_replies-Gathers out (one_more {r} {w} {head} {ws} (inr (done, text_of)) k) wf =
        let s = text (answer w) in
        elim (Appended-outcomes out s (iobuf_addn out s) (iobuf_addn-Appended out s wf (plain w))) [
          | inl (out1, e, h) ↦
              let g = gather_replies-Gathers out1 k h.well_formed in
              record {
                n = suc g.n;
                out' = g.out';
                head' = g.head';
                gone = w ∷ g.gone;
                pending = g.pending;
                returns = rw (text_of, e, g.returns) refl;
                parts = ap (λ l. w ∷ l) g.parts;
                waits = g.waits;
                sends = sent h g.sends;
                well_formed = g.well_formed;
              }
          | inr (e, o) ↦
              let g = gather_replies-Gathers out k wf in
              record {
                n = suc g.n;
                out' = g.out';
                head' = g.head';
                gone = w ∷ g.gone;
                pending = g.pending;
                returns = rw (text_of, e, g.returns) refl;
                parts = ap (λ l. w ∷ l) g.parts;
                waits = g.waits;
                sends = refused e o g.sends;
                well_formed = g.well_formed;
              }
        ]

    -- What the events leave: the requests are those that are gone and those that wait.
    pub record Runs (es : List Event) (head : List QueuedReply) (ws : List ℕ) (out : Iobuf)
        : Type 0 where
      pub head' : List QueuedReply
      pub out' : Iobuf
      pub gone : List ℕ
      pub pending : List ℕ
      pub returns : run es head out ≡ ok (head', out')
      pub parts : ws ++ requests es ≡ gone ++ pending
      pub waits : Waits head' pending
      pub sends : Sends gone out out'
      pub well_formed : IsIobuf out'

    run-Runs :
        (es : List Event) {head : List QueuedReply} {ws : List ℕ} (out : Iobuf)
        → Waits head ws
        → IsIobuf out
        → Runs es head ws out
    unfolding run requests
    run-Runs [] {head} {ws} out k wf = record {
      head' = head;
      out' = out;
      gone = [];
      pending = ws;
      returns = refl;
      parts = append-nil ws;
      waits = k;
      sends = end_of;
      well_formed = wf;
    }
    run-Runs (queued w ∷ es) {head} {ws} out k wf =
        let g = run-Runs es out (add_reply_queuer-Waits w k) wf in
        record {
          head' = g.head';
          out' = g.out';
          gone = g.gone;
          pending = g.pending;
          returns = g.returns;
          parts = sym (append_assoc ws (w ∷ []) (requests es)) ∙ g.parts;
          waits = g.waits;
          sends = g.sends;
          well_formed = g.well_formed;
        }
    run-Runs (answered w ∷ es) out k wf =
        let (head1, b, e1, k1) = reply_add-Waits w k in
        let g = run-Runs es out k1 wf in
        record {
          head' = g.head';
          out' = g.out';
          gone = g.gone;
          pending = g.pending;
          returns = rw e1 g.returns;
          parts = g.parts;
          waits = g.waits;
          sends = g.sends;
          well_formed = g.well_formed;
        }
    run-Runs (gathered ∷ es) out k wf =
        let g = gather_replies-Gathers out k wf in
        let l = run-Runs es g.out' g.waits g.well_formed in
        record {
          head' = l.head';
          out' = l.out';
          gone = g.gone ++ l.gone;
          pending = l.pending;
          returns = rw g.returns l.returns;
          parts =
              ap (λ x. x ++ requests es) g.parts
              ∙ append_assoc g.gone g.pending (requests es)
              ∙ ap (λ x. g.gone ++ x) l.parts
              ∙ sym (append_assoc g.gone l.gone l.pending);
          waits = l.waits;
          sends = Sends-append g.sends l.sends;
          well_formed = l.well_formed;
        }

    -- Requests are read, answered and gathered in any order, by calls of which no two overlap, beginning with
    -- no request and a well-formed output buffer, and a request has one answer, which is not empty and does
    -- not begin with a 0. Nothing fails: the answers of the first requests, as they were read, have been
    -- written to the output in that order, each whole, or refused with SPOCP_BUF_OVERFLOW by a buffer with
    -- too few bytes left that may not grow by those that are missing; and the other requests wait, in their
    -- order.
    pub replies_in_order : (es : List Event) (out : Iobuf) → IsIobuf out → Runs es [] [] out
    replies_in_order es out wf = run-Runs es out no_one wf

-- An answer for which the output buffer is too small, where that may not grow, is counted and taken from
-- the list as if it had been written, and the output buffer is as it was.
pub gather_replies_lost :
    (out b : Iobuf) (head : List QueuedReply)
    → IsText (text b)
    → out.bsize ≡ maxbuf
    → out.left < length (text b)
    → gather_replies out (record { wi = none; buf = some b } ∷ head)
      ≡ (gather_replies out head >>= λ y. ok (suc y.0, y.1, y.2))
unfolding gather_replies
gather_replies_lost out b head plain full short =
    rw (refused_whole out (text b) plain full short) refl
