-- ===== src/Pool/Pop.antt =====
-- server/pool.c: a pool gives out the item that was added last, and counts its items.
use spocp.Pool.Chain.{first, Linked, Apart, Linked-split, with_next-other}
use spocp.Pool.Links.{
  IsPool, Apart-split, Distinct-unsnoc, by_last, last-append, zero-false, pool_add-Grown,
}
use spocp.Pool.Remove.{
  Distinct-parts, eq-true, eq-false, first-Apart, first_stays, relink_last, cleared-Linked,
}
use spocp.Pool.{Heap, Pool, with_next, set_next, cleared, pool_add, pool_pop, count_from, pool_size}
use spocp.Prelude.{
  ℕ, zero, suc, int_mod, ◌+◌, ◌<◌, ◌-◌, ◌≤◌, List, [], ◌∷◌, ◌++◌, false, ◌==◌, length,
  length-append, ◌≡◌, ◌≢◌, refl, sym, ap, ◌∙◌, subst, ◌⊎◌, inl, inr, Result, ok, ◌>>=◌, arith,
}

-- The result of taking the last item from a pool with these others.
abbrev pub Popped : ℕ → List ℕ → Result (ℕ × Heap × Pool) → Type 0
Popped x l r = (h' : Heap) × (pool' : Pool) × (r ≡ ok (x, h', pool')) × IsPool h' pool' l

pop_only : (h : Heap) (pool : Pool) (x : ℕ) → IsPool h pool (x ∷ []) → Popped x [] (pool_pop h pool)
unfolding pool_pop Linked
pop_only h pool x wf =
    let some_items : (pool.size == 0) ≡ false = ground (arith, wf.size) in
    let alone = eq-true pool.tail pool.head (wf.tail ∙ sym wf.head) in
    (
      cleared h x,
      record { size = pool.size - 1; head = 0; tail = 0 },
      rw (some_items, alone, wf.tail) refl,
      record {
        size = omega (arith, wf.size);
        head = refl;
        tail = refl;
        chain = tt;
        real = tt;
        distinct = tt;
      },
    )

pop_behind :
    (h : Heap) (pool : Pool) (m : List ℕ) (t x : ℕ)
    → IsPool h pool ((m ++ (t ∷ [])) ++ (x ∷ []))
    → Popped x (m ++ (t ∷ [])) (pool_pop h pool)
unfolding pool_pop set_next Linked
pop_behind h pool m t x wf =
    let (d, e, f) = Distinct-parts (m ++ (t ∷ [])) (x ∷ []) wf.distinct in
    let (before, at_x) = Linked-split h 0 (m ++ (t ∷ [])) (x ∷ []) 0 wf.chain in
    let some_items : (pool.size == 0) ≡ false =
      ground (arith, wf.size, length-append (m ++ (t ∷ [])) (x ∷ [])) in
    let at_tail : pool.tail ≡ x = wf.tail ∙ last-append 0 (m ++ (t ∷ [])) x in
    let at_head : pool.head ≡ first (m ++ (t ∷ [])) 0 = wf.head ∙ first_stays m t 0 0 (x ∷ []) in
    let several : (x == pool.head) ≡ false =
      eq-false x pool.head (λ same. first-Apart x m t 0 f.0 (sym at_head ∙ sym same)) in
    let prev_t : (h x).prev ≡ t = at_x.0 ∙ last-append 0 m t in
    let reals = (Apart-split 0 (m ++ (t ∷ [])) (x ∷ []) wf.real).0 in
    let real = zero-false t (Apart-split 0 m (t ∷ []) reals).1.0 in
    let ne : x ≢ t = λ same. (Apart-split x m (t ∷ []) f.0).1.0 (sym same) in
    let prev_kept : (with_next h t 0 x).prev ≡ t =
      ap (λ i. i.prev) (with_next-other h t 0 x ne) ∙ prev_t in
    (
      cleared (with_next h t 0) x,
      record { size = pool.size - 1; head = pool.head; tail = t },
      rw (some_items, at_tail, several, prev_t, at_x.1, real, prev_kept) refl,
      record {
        size = omega (arith, wf.size, length-append (m ++ (t ∷ [])) (x ∷ []));
        head = at_head;
        tail = sym (last-append 0 m t);
        chain =
            cleared-Linked (with_next h t 0) x (m ++ (t ∷ [])) f.0
              (relink_last h 0 m t x 0 before (Distinct-unsnoc m t d).1);
        real = reals;
        distinct = d;
      },
    )

-- `pool_pop` takes the last item of a pool, and leaves the others in their order.
pub pool_pop-Popped :
    (h : Heap) (pool : Pool) (l : List ℕ) (x : ℕ)
    → IsPool h pool (l ++ (x ∷ []))
    → Popped x l (pool_pop h pool)
pool_pop-Popped h pool l x wf = by_case (by_last l)
  where
    by_case :
        (l ≡ []) ⊎ ((m : List ℕ) × (t : ℕ) × (l ≡ m ++ (t ∷ []))) → Popped x l (pool_pop h pool)
    by_case (inl e) =
        subst (λ k. Popped x k (pool_pop h pool)) (sym e)
          (pop_only h pool x (subst (λ k. IsPool h pool (k ++ (x ∷ []))) e wf))
    by_case (inr (m, t, e)) =
        subst (λ k. Popped x k (pool_pop h pool)) (sym e)
          (pop_behind h pool m t x (subst (λ k. IsPool h pool (k ++ (x ∷ []))) e wf))

-- A pool of less than 2 ^ 32 - 1 items is a stack: an item that is not null and not in the pool is added,
-- and is the one that is popped next; the pool is left with the items that it had.
pub pool_pop-pool_add :
    (h : Heap) (pool : Pool) (l : List ℕ) (x : ℕ)
    → IsPool h pool l
    → x ≢ 0
    → Apart x l
    → length l + 1 < int_mod
    → Popped x l (pool_add h pool x >>= λ (h1, pool1). pool_pop h1 pool1)
pool_pop-pool_add h pool l x wf real apart few =
    let (h1, pool1, e, wf1, frame) = pool_add-Grown h pool l x wf real apart few in
    rw e (pool_pop-Popped h1 pool1 l x wf1)

count_from-length :
    (fuel : ℕ) (h : Heap) (p : ℕ) (l : List ℕ)
    → length l ≤ fuel
    → Apart 0 l
    → Linked h p l 0
    → count_from fuel h (first l 0) ≡ ok (length l)
unfolding count_from Linked
count_from-length zero h p [] enough real chain = refl
count_from-length zero h p (x ∷ l) enough real chain = absurd (omega (arith, enough))
count_from-length (suc fuel) h p [] enough real chain = refl
count_from-length (suc fuel) h p (x ∷ l) enough real chain =
    rw
      (
        zero-false x real.0,
        chain.1,
        count_from-length fuel h x l (omega (arith, enough)) real.1 chain.2,
      )
      refl

-- `pool_size` counts the items along their links, and finds as many as the pool has noted.
pub pool_size-IsPool :
    (h : Heap) (pool : Pool) (l : List ℕ)
    → IsPool h pool l
    → pool_size pool.size h pool ≡ ok pool.size
unfolding pool_size
pool_size-IsPool h pool l wf =
    ap (λ a. count_from pool.size h a) wf.head
    ∙ count_from-length pool.size h 0 l (omega (arith, wf.size)) wf.real wf.chain
    ∙ ap ok (sym wf.size)
