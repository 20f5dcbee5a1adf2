-- ===== src/Tests/Pools.antt =====
-- Concrete pools for the theorems on server/pool.c.
use spocp.Pool.Chain.{Linked}
use spocp.Pool.Links.{IsPool}
use spocp.Pool.Move.{IsAfpool, item_return-IsAfpool}
use spocp.Pool.Pop.{Popped, pool_pop-pool_add}
use spocp.Pool.{Heap, Pool, Afpool, pool_add, pool_pop, item_return}
use spocp.Prelude.{
  ℕ, ◌<◌, [], ◌∷◌, ◌==◌, if◌then◌else◌, ok, ◌>>=◌, ◌≡◌, ◌≢◌, refl, ◌⊎◌, inl, inr, arith,
}

-- Three items in a row, and one alone.
abbrev heap : Heap
heap b =
    if b == 1
    then record { prev = 0; next = 2 }
    else if b == 2
    then record { prev = 1; next = 3 }
    else if b == 3
    then record { prev = 2; next = 0 }
    else record { prev = 0; next = 0 }

abbrev three : Pool
three = record { size = 3; head = 1; tail = 3 }

apart : (a b : ℕ) → (a < b) ⊎ (b < a) → a ≢ b
apart a b (inl h) e = absurd (omega (arith, e, h))
apart a b (inr h) e = absurd (omega (arith, e, h))

three-Linked : Linked heap 0 (1 ∷ 2 ∷ 3 ∷ []) 0
unfolding Linked
three-Linked = (refl, refl, (refl, refl, (refl, refl, tt)))

three-IsPool : IsPool heap three (1 ∷ 2 ∷ 3 ∷ [])
three-IsPool = record {
  size = refl;
  head = refl;
  tail = refl;
  chain = three-Linked;
  real = (
    apart 1 0 (inr (omega arith)),
    (apart 2 0 (inr (omega arith)), (apart 3 0 (inr (omega arith)), tt)),
  );
  distinct = (
    (apart 2 1 (inr (omega arith)), (apart 3 1 (inr (omega arith)), tt)),
    ((apart 3 2 (inr (omega arith)), tt), (tt, tt)),
  );
}

one-IsPool : IsPool heap (record { size = 1; head = 9; tail = 9 }) (9 ∷ [])
one-IsPool = record {
  size = refl;
  head = refl;
  tail = refl;
  chain = unfold Linked in (refl, refl, tt);
  real = (apart 9 0 (inr (omega arith)), tt);
  distinct = (tt, tt);
}

abbrev afpool : Afpool
afpool = record { active = three; free = record { size = 1; head = 9; tail = 9 } }

afpool-IsAfpool : IsAfpool heap afpool (1 ∷ 2 ∷ 3 ∷ []) (9 ∷ [])
afpool-IsAfpool = record {
  active = three-IsPool;
  free = one-IsPool;
  apart = (
    (
      apart 1 9 (inl (omega arith)),
      (apart 2 9 (inl (omega arith)), (apart 3 9 (inl (omega arith)), tt)),
    ),
    tt,
  );
}

item_return-IsAfpool_example :
    (h' : Heap) × (afp' : Afpool) × (item_return heap afpool 1 ≡ ok (h', afp'))
    × IsAfpool h' afp' (2 ∷ 3 ∷ []) (9 ∷ 1 ∷ [])
item_return-IsAfpool_example =
    item_return-IsAfpool heap afpool [] 1 (2 ∷ 3 ∷ []) (9 ∷ []) afpool-IsAfpool (omega arith)
      (omega arith)

pool_pop-pool_add_example :
    Popped 9 (1 ∷ 2 ∷ 3 ∷ []) (pool_add heap three 9 >>= λ (h1, pool1). pool_pop h1 pool1)
pool_pop-pool_add_example =
    pool_pop-pool_add heap three (1 ∷ 2 ∷ 3 ∷ []) 9 three-IsPool (apart 9 0 (inr (omega arith)))
      (
        apart 1 9 (inl (omega arith)),
        (apart 2 9 (inl (omega arith)), (apart 3 9 (inl (omega arith)), tt)),
      )
      (omega arith)
