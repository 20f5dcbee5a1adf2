-- ===== src/Pool/Move.antt =====
-- server/pool.c: a pool without an item, and an item that goes from one pool of a pair to the other.
use spocp.Pool.Chain.{first, last, Apart, Linked-same}
use spocp.Pool.Links.{Distinct, IsPool, Apart-split, by_last, Frame, pool_add-Grown}
use spocp.Pool.Remove.{
  Parted, cut_only, cut_first, cut_last, cut_middle, Distinct-parts, Distinct-join, cleared-other,
  cleared-Linked,
}
use spocp.Pool.{Heap, Pool, Afpool, cleared, pool_rm_item, item_return}
use spocp.Prelude.{
  ℕ, ◌+◌, ◌-◌, ◌%◌, ◌<◌, int_mod, List, [], ◌∷◌, ◌++◌, All, All-append, length, length-append,
  append-nil, ◌≡◌, ◌≢◌, refl, sym, ◌∙◌, subst, ◌⊎◌, inl, inr, Result, ok, arith,
}

cut_any :
    (h : Heap) (pool : Pool) (x : ℕ) (l m : List ℕ)
    → IsPool h pool (l ++ (x ∷ m))
    → Parted h pool x (l ++ m)
cut_any h pool x l m wf = by_case (by_last l) m wf
  where
    at_end :
        (l' m' : List ℕ)
        → (l' ≡ []) ⊎ ((k : List ℕ) × (t : ℕ) × (l' ≡ k ++ (t ∷ [])))
        → IsPool h pool (l' ++ (x ∷ m'))
        → Parted h pool x (l' ++ m')
    at_end l' [] (inl e) wf =
        subst (λ q. Parted h pool x (q ++ [])) (sym e)
          (cut_only h pool x (subst (λ q. IsPool h pool (q ++ (x ∷ []))) e wf))
    at_end l' (y ∷ m') (inl e) wf =
        subst (λ q. Parted h pool x (q ++ (y ∷ m'))) (sym e)
          (cut_first h pool x y m' (subst (λ q. IsPool h pool (q ++ (x ∷ y ∷ m'))) e wf))
    at_end l' [] (inr (k, t, e)) wf = subst (Parted h pool x) (sym (append-nil l')) (
        subst (Parted h pool x) (sym e)
          (cut_last h pool x k t (subst (λ q. IsPool h pool (q ++ (x ∷ []))) e wf)))
    at_end l' (y ∷ m') (inr (k, t, e)) wf =
        subst (λ q. Parted h pool x (q ++ (y ∷ m'))) (sym e)
          (cut_middle h pool x k t y m' (subst (λ q. IsPool h pool (q ++ (x ∷ y ∷ m'))) e wf))

    by_case :
        (l ≡ []) ⊎ ((k : List ℕ) × (t : ℕ) × (l ≡ k ++ (t ∷ [])))
        → (m' : List ℕ) → IsPool h pool (l ++ (x ∷ m'))
        → Parted h pool x (l ++ m')
    by_case c m' wf = at_end l m' c wf

-- The other items of a list without repetition.
others :
    (l : List ℕ) (x : ℕ) (m : List ℕ)
    → Distinct (l ++ (x ∷ m))
    → Distinct (l ++ m) × Apart x (l ++ m)
others l x m d =
    let (a, b, c) = Distinct-parts l (x ∷ m) d in
    (Distinct-join l m a b.1 c.1, All-append (λ y. y ≢ x) l m c.0 b.0)

-- What is left after an item was taken out of a pool with these others.
abbrev pub Without : Heap → ℕ → List ℕ → Result (Heap × Pool) → Type 0
Without h x l r =
    (h' : Heap) × (pool' : Pool) × (r ≡ ok (h', pool')) × IsPool h' pool' l × Frame h h' x l

-- `pool_rm_item` of an item of a pool of less than 2 ^ 32 items, wherever it stands, leaves the others in
-- their order; the links of items outside stay.
pub pool_rm_item-Without :
    (h : Heap) (pool : Pool) (l : List ℕ) (x : ℕ) (m : List ℕ)
    → IsPool h pool (l ++ (x ∷ m))
    → length (l ++ (x ∷ m)) < int_mod
    → Without h x (l ++ m) (pool_rm_item h pool x)
unfolding pool_rm_item
pool_rm_item-Without h pool l x m wf small =
    let (h1, e, chain, frame) = cut_any h pool x l m wf in
    let (distinct, apart) = others l x m wf.distinct in
    let reals = Apart-split 0 l (x ∷ m) wf.real in
    (
      cleared h1 x,
      record {
        size = (pool.size + int_mod - 1) % int_mod;
        head = first (l ++ m) 0;
        tail = last 0 (l ++ m);
      },
      rw e refl,
      record {
        size = omega (arith, wf.size, length-append l (x ∷ m), length-append l m, small);
        head = refl;
        tail = refl;
        chain = cleared-Linked h1 x (l ++ m) apart chain;
        real = All-append (λ y. y ≢ 0) l m reals.0 reals.1.1;
        distinct = distinct;
      },
      λ b ne outside. cleared-other h1 x b ne ∙ frame b outside,
    )

-- The pools of a pair have different items.
pub record IsAfpool (h : Heap) (afp : Afpool) (a f : List ℕ) : Type 0 where
  pub active : IsPool h afp.active a
  pub free : IsPool h afp.free f
  pub apart : All (λ y. Apart y a) f

same_links :
    (h h' : Heap) (pool : Pool) (l : List ℕ)
    → All (λ y. h' y ≡ h y) l
    → IsPool h pool l
    → IsPool h' pool l
same_links h h' pool l same wf = record {
  size = wf.size;
  head = wf.head;
  tail = wf.tail;
  chain = Linked-same h h' 0 l 0 same wf.chain;
  real = wf.real;
  distinct = wf.distinct;
}

-- What a call that keeps the links of items outside does to a list outside.
outside_same :
    (h h' : Heap) (x : ℕ) (l k : List ℕ)
    → Frame h h' x l
    → Apart x k
    → All (λ y. Apart y l) k
    → All (λ y. h' y ≡ h y) k
outside_same h h' x l [] frame a b = tt
outside_same h h' x l (y ∷ k) frame a b = (frame y a.0 b.0, outside_same h h' x l k frame a.1 b.1)

module _ (l : List ℕ) (x : ℕ) (m : List ℕ) where
  fewer : (f : List ℕ) → All (λ y. Apart y (l ++ (x ∷ m))) f → All (λ y. Apart y (l ++ m)) f
  fewer [] h = tt
  fewer (y ∷ f) h =
      let (a, b) = Apart-split y l (x ∷ m) h.0 in (All-append (λ z. z ≢ y) l m a b.1, fewer f h.1)

  taken : (f : List ℕ) → All (λ y. Apart y (l ++ (x ∷ m))) f → Apart x f
  taken [] h = tt
  taken (y ∷ f) h = let (a, b) = Apart-split y l (x ∷ m) h.0 in ((λ e. b.0 (sym e)), taken f h.1)

each-Apart : (a f : List ℕ) → All (λ y. Apart y a) f → All (λ z. Apart z f) a
each-Apart a [] h = no_items a
  where
    no_items : (k : List ℕ) → All (λ z. Apart z []) k
    no_items [] = tt
    no_items (z ∷ k) = (tt, no_items k)
each-Apart a (y ∷ f) h = one_more a h.0 (each-Apart a f h.1)
  where
    one_more : (k : List ℕ) → Apart y k → All (λ z. Apart z f) k → All (λ z. Apart z (y ∷ f)) k
    one_more [] p q = tt
    one_more (z ∷ k) p q = (((λ e. p.0 (sym e)), q.0), one_more k p.1 q.1)

-- `item_return` takes an item of the active pool, which has less than 2 ^ 32, from where it stands, and
-- puts it behind the free items, of which there are less than 2 ^ 32 - 1; the other active items stay in their order, and both pools are well
-- linked.
pub item_return-IsAfpool :
    (h : Heap) (afp : Afpool) (l : List ℕ) (x : ℕ) (m f : List ℕ)
    → IsAfpool h afp (l ++ (x ∷ m)) f
    → length (l ++ (x ∷ m)) < int_mod
    → length f + 1 < int_mod
    → (h' : Heap) × (afp' : Afpool) × (item_return h afp x ≡ ok (h', afp'))
      × IsAfpool h' afp' (l ++ m) (f ++ (x ∷ []))
unfolding item_return
item_return-IsAfpool h afp l x m f wf small few =
    let (h1, active, e1, wf1, frame1) = pool_rm_item-Without h afp.active l x m wf.active small in
    let apart_f = taken l x m f wf.apart in
    let rest = fewer l x m f wf.apart in
    let free1 =
      same_links h h1 afp.free f (outside_same h h1 x (l ++ m) f frame1 apart_f rest) wf.free in
    let real_x = (Apart-split 0 l (x ∷ m) wf.active.real).1.0 in
    let (h2, free, e2, wf2, frame2) = pool_add-Grown h1 afp.free f x free1 real_x apart_f few in
    let apart_x = (others l x m wf.active.distinct).1 in
    (
      h2,
      record { active = active; free = free },
      rw (e1, e2) refl,
      record {
        active =
            same_links h1 h2 active (l ++ m)
              (outside_same h1 h2 x f (l ++ m) frame2 apart_x (each-Apart (l ++ m) f rest)) wf1;
        free = wf2;
        apart = All-append (λ y. Apart y (l ++ m)) f (x ∷ []) rest (apart_x, tt);
      },
    )
