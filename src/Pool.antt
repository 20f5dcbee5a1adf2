-- ===== src/Pool.antt =====
-- server/pool.c: the pools of work items, doubly linked lists with a head, a tail and a size, and pairs
-- of them. An item is its address, 0 for null; the links of all items are a function from addresses. The
-- lock of a pair is held throughout a call.
pub mod Chain
pub mod Links
pub mod Remove
pub mod Move
pub mod Pop
use spocp.Prelude.{
  ℕ, zero, suc, ◌+◌, ◌-◌, ◌%◌, int_mod, Bool, true, false, not, ◌==◌, if◌then◌else◌, Result, ok,
  fault, unfinished, ◌>>=◌,
}

-- `pool_item_t` without its `info`, which is not touched.
pub record Item : Type 0 where
  pub prev : ℕ
  pub next : ℕ

abbrev pub Heap : Type 0
Heap = ℕ → Item

pub record Pool : Type 0 where
  pub size : ℕ
  pub head : ℕ
  pub tail : ℕ

unfoldable pub pool_new : Pool
pool_new = record { size = 0; head = 0; tail = 0 }

-- `a->next = v` and `a->prev = v`.
unfoldable pub with_next : Heap → ℕ → ℕ → Heap
with_next h a v b = if b == a then record { prev = (h b).prev; next = v } else h b

unfoldable pub with_prev : Heap → ℕ → ℕ → Heap
with_prev h a v b = if b == a then record { prev = v; next = (h b).next } else h b

-- The same through a pointer that may be null.
unfoldable pub set_next : Heap → ℕ → ℕ → Result Heap
unfolding with_next
set_next h a v = if a == 0 then fault else ok (with_next h a v)

unfoldable pub set_prev : Heap → ℕ → ℕ → Result Heap
unfolding with_prev
set_prev h a v = if a == 0 then fault else ok (with_prev h a v)

-- `item->next = item->prev = 0`.
unfoldable pub cleared : Heap → ℕ → Heap
unfolding with_next with_prev
cleared h item = with_prev (with_next h item 0) item 0

-- An item that is not null is put at the tail. The size is an `int`, here and below.
unfoldable pub pool_add : Heap → Pool → ℕ → Result (Heap × Pool)
unfolding cleared set_next with_next with_prev
pool_add h pool item =
    if pool.size == 0
    then ok (cleared h item, record { size = (pool.size + 1) % int_mod; head = item; tail = item })
    else (set_next h pool.tail item >>= λ h1. ok (
      with_next (with_prev h1 item pool.tail) item 0,
      record { size = (pool.size + 1) % int_mod; head = pool.head; tail = item },
    ))

-- The item at the tail, or 0.
unfoldable pub pool_pop : Heap → Pool → Result (ℕ × Heap × Pool)
unfolding cleared set_next
pool_pop h pool =
    if pool.size == 0
    then ok (0, h, pool)
    else if pool.tail == pool.head
    then ok (pool.tail, cleared h pool.tail, record { size = pool.size - 1; head = 0; tail = 0 })
    else (set_next h (h pool.tail).prev (h pool.tail).next >>= λ h1. ok (
      pool.tail,
      cleared h1 pool.tail,
      record { size = pool.size - 1; head = pool.head; tail = (h1 pool.tail).prev },
    ))

-- `if (item->prev) item->prev->next = item->next`, and the other way round.
unfoldable pub unlink_next : Heap → ℕ → Heap
unfolding with_next
unlink_next h item = if (h item).prev == 0 then h else with_next h (h item).prev (h item).next

unfoldable pub unlink_prev : Heap → ℕ → Heap
unfolding with_prev
unlink_prev h item = if (h item).next == 0 then h else with_prev h (h item).next (h item).prev

-- The pool without the item, whose links are not cleared yet.
unfoldable pub unlinked : Heap → Pool → ℕ → Result (Heap × ℕ × ℕ)
unfolding set_next set_prev unlink_next unlink_prev
unlinked h pool item =
    if pool.head == item
    then if pool.head == pool.tail
      then ok (h, 0, 0)
      else (set_prev h (h item).next 0 >>= λ h1. ok (h1, (h1 item).next, pool.tail))
    else if pool.tail == item
    then (set_next h (h item).prev 0 >>= λ h1. ok (h1, pool.head, (h1 item).prev))
    else ok (unlink_prev (unlink_next h item) item, pool.head, pool.tail)

-- A size of 0 goes to -1.
unfoldable pub pool_rm_item : Heap → Pool → ℕ → Result (Heap × Pool)
unfolding unlinked cleared
pool_rm_item h pool item = unlinked h pool item >>= λ (h1, head, tail). ok (
  cleared h1 item,
  record { size = (pool.size + int_mod - 1) % int_mod; head = head; tail = tail },
)

-- The loop of `pool_size`, over as many items as there is fuel.
unfoldable pub count_from : ℕ → Heap → ℕ → Result ℕ
count_from zero h a = if a == 0 then ok 0 else unfinished
count_from (suc fuel) h a =
    let rest = count_from fuel h (h a).next in if a == 0 then ok 0 else (rest >>= λ i. ok (suc i))

unfoldable pub pool_size : ℕ → Heap → Pool → Result ℕ
unfolding count_from
pool_size fuel h pool = count_from fuel h pool.head

-- `afpool_t` with both of its pools.
pub record Afpool : Type 0 where
  pub active : Pool
  pub free : Pool

-- A pair, where there is one; otherwise the calls return 0 at once.
unfoldable pub item_return : Heap → Afpool → ℕ → Result (Heap × Afpool)
unfolding pool_rm_item pool_add
item_return h afp item = pool_rm_item h afp.active item >>= λ (h1, active).
    pool_add h1 afp.free item >>= λ (h2, free). ok (h2, record { active = active; free = free })

unfoldable pub afpool_push_item : Heap → Afpool → ℕ → Result (Heap × Afpool)
unfolding pool_add
afpool_push_item h afp item = pool_add h afp.active item >>= λ (h1, active).
    ok (h1, record { active = active; free = afp.free })

unfoldable pub afpool_push_empty : Heap → Afpool → ℕ → Result (Heap × Afpool)
unfolding pool_add
afpool_push_empty h afp item =
    pool_add h afp.free item >>= λ (h1, free). ok (h1, record { active = afp.active; free = free })

unfoldable pub afpool_get_item : Heap → Afpool → Result (ℕ × Heap × Afpool)
unfolding pool_pop
afpool_get_item h afp = pool_pop h afp.active >>= λ (item, h1, active).
    ok (item, h1, record { active = active; free = afp.free })

unfoldable pub afpool_get_empty : Heap → Afpool → Result (ℕ × Heap × Afpool)
unfolding pool_pop
afpool_get_empty h afp = pool_pop h afp.free >>= λ (item, h1, free).
    ok (item, h1, record { active = afp.active; free = free })

unfoldable pub afpool_first : Afpool → ℕ
afpool_first afp = afp.active.head

unfoldable pub afpool_free_item : Afpool → Bool
afpool_free_item afp = not (afp.free.size == 0)

unfoldable pub afpool_active_item : Afpool → Bool
afpool_active_item afp = not (afp.active.size == 0)

unfoldable pub afpool_new : Afpool
unfolding pool_new
afpool_new = record { active = pool_new; free = pool_new }

unfoldable pub number_of_active : ℕ → Heap → Afpool → Result ℕ
unfolding pool_size
number_of_active fuel h afp = pool_size fuel h afp.active

unfoldable pub number_of_free : ℕ → Heap → Afpool → Result ℕ
unfolding pool_size
number_of_free fuel h afp = pool_size fuel h afp.free
