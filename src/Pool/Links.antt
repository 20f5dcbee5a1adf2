-- ===== src/Pool/Links.antt =====
-- server/pool.c: a pool is a list of items; adding at the tail, and popping from it.
use spocp.Pool.Chain.{
  first, last, Linked, Apart, Linked-append, Linked-split, Linked-same, with_next-other,
  with_prev-other, with_next_self, with_prev_self,
}
use spocp.Pool.{Heap, Item, Pool, with_next, with_prev, set_next, cleared, pool_add}
use spocp.Prelude.{
  ℕ, int_mod, ◌%◌, ◌<◌, ◌+◌, List, [], ◌∷◌, ◌++◌, true, false, ◌==◌, ==_iff, All, All-append,
  length, length-append, ◌≡◌, ◌≢◌, refl, sym, ap, ◌∙◌, subst, ◌⊎◌, inl, inr, Bool-cases, Result, ok,
  arith,
}

abbrev pub Distinct : List ℕ → Type 0
Distinct [] = Unit
Distinct (x ∷ l) = Apart x l × Distinct l

-- The pool has these items, from its head to its tail.
pub record IsPool (h : Heap) (pool : Pool) (l : List ℕ) : Type 0 where
  pub size : pool.size ≡ length l
  pub head : pool.head ≡ first l 0
  pub tail : pool.tail ≡ last 0 l
  pub chain : Linked h 0 l 0
  pub real : Apart 0 l
  pub distinct : Distinct l

pub last-append : (p : ℕ) (l : List ℕ) (t : ℕ) → last p (l ++ (t ∷ [])) ≡ t
last-append p [] t = refl
last-append p (x ∷ l) t = last-append x l t

pub Apart-split : (a : ℕ) (l m : List ℕ) → Apart a (l ++ m) → Apart a l × Apart a m
Apart-split a [] m h = (tt, h)
Apart-split a (x ∷ l) m h = let (b, c) = Apart-split a l m h.1 in ((h.0, b), c)

pub Distinct-snoc : (l : List ℕ) (t : ℕ) → Distinct l → Apart t l → Distinct (l ++ (t ∷ []))
Distinct-snoc [] t d h = (tt, tt)
Distinct-snoc (x ∷ l) t d h =
    (All-append (λ y. y ≢ x) l (t ∷ []) d.0 ((λ e. h.0 (sym e)), tt), Distinct-snoc l t d.1 h.1)

pub Distinct-unsnoc : (l : List ℕ) (t : ℕ) → Distinct (l ++ (t ∷ [])) → Distinct l × Apart t l
Distinct-unsnoc [] t d = (tt, tt)
Distinct-unsnoc (x ∷ l) t d =
    let (a, b) = Distinct-unsnoc l t d.1 in
    let (c, e) = Apart-split x l (t ∷ []) d.0 in ((c, a), ((λ same. e.0 (sym same)), b))

-- A list is empty, or has a last item.
pub by_last : (l : List ℕ) → (l ≡ []) ⊎ ((m : List ℕ) × (t : ℕ) × (l ≡ m ++ (t ∷ [])))
by_last [] = inl refl
by_last (x ∷ l) = elim (by_last l) [
  | inl e ↦ inr ([], x, ap (λ k. x ∷ k) e)
  | inr (m, t, e) ↦ inr (x ∷ m, t, ap (λ k. x ∷ k) e)
]

-- The links of the items outside stay.
abbrev pub Frame : Heap → Heap → ℕ → List ℕ → Type 0
Frame h h' item l = (b : ℕ) → b ≢ item → Apart b l → h' b ≡ h b

-- The result of adding an item to a pool with these items.
abbrev pub Grown : Heap → List ℕ → ℕ → Result (Heap × Pool) → Type 0
Grown h l item r =
    (h' : Heap) × (pool' : Pool) × (r ≡ ok (h', pool'))
    × IsPool h' pool' (l ++ (item ∷ []))
    × Frame h h' item l

add_first :
    (h : Heap) (pool : Pool) (item : ℕ)
    → IsPool h pool []
    → item ≢ 0
    → Grown h [] item (pool_add h pool item)
unfolding pool_add cleared Linked
add_first h pool item wf real =
    let empty : (pool.size == 0) ≡ true = (==_iff pool.size 0).1 wf.size in
    let links : cleared h item item ≡ record { prev = 0; next = 0 } =
      with_prev_self (with_next h item 0) item 0
      ∙ ap (λ (i : Item). record { prev = 0; next = i.next }) (with_next_self h item 0) in
    (
      cleared h item,
      record { size = (pool.size + 1) % int_mod; head = item; tail = item },
      rw empty refl,
      record {
        size = omega (arith, wf.size);
        head = refl;
        tail = refl;
        chain = (ap (λ i. i.prev) links, ap (λ i. i.next) links, tt);
        real = (real, tt);
        distinct = (tt, tt);
      },
      λ b ne apart.
          with_prev-other (with_next h item 0) item 0 b ne ∙ with_next-other h item 0 b ne,
    )

pub zero-false : (a : ℕ) → a ≢ 0 → a == 0 ≡ false
zero-false a h = elim (Bool-cases (a == 0)) [ inl e ↦ absurd (h ((==_iff a 0).0 e)) | inr n ↦ n ]

-- The links after an item was put behind `t`.
module _ (h : Heap) (t item : ℕ) where
  abbrev pub linked_to : Heap
  linked_to = with_next (with_prev (with_next h t item) item t) item 0

  linked_to-other : (b : ℕ) → b ≢ item → b ≢ t → linked_to b ≡ h b
  linked_to-other b ne ne' =
      with_next-other (with_prev (with_next h t item) item t) item 0 b ne
      ∙ with_prev-other (with_next h t item) item t b ne
      ∙ with_next-other h t item b ne'

  linked_to-tail : t ≢ item → linked_to t ≡ record { prev = (h t).prev; next = item }
  linked_to-tail ne =
      with_next-other (with_prev (with_next h t item) item t) item 0 t ne
      ∙ with_prev-other (with_next h t item) item t t ne
      ∙ with_next_self h t item

  linked_to-item : linked_to item ≡ record { prev = t; next = 0 }
  linked_to-item =
      with_next_self (with_prev (with_next h t item) item t) item 0
      ∙ ap (λ (i : Item). record { prev = i.prev; next = 0 })
          (with_prev_self (with_next h t item) item t)

  linked_to-Apart : (l : List ℕ) → Apart item l → Apart t l → All (λ x. linked_to x ≡ h x) l
  linked_to-Apart [] a b = tt
  linked_to-Apart (x ∷ l) a b = (linked_to-other x a.0 b.0, linked_to-Apart l a.1 b.1)

  linked_to-Linked :
      (m : List ℕ)
      → Linked h 0 (m ++ (t ∷ [])) 0
      → Apart item m
      → Apart t m
      → t ≢ item
      → Linked linked_to 0 ((m ++ (t ∷ [])) ++ (item ∷ [])) 0
  unfolding Linked
  linked_to-Linked m chain a b ne =
      let (before, at_t) = Linked-split h 0 m (t ∷ []) 0 chain in
      let to_t : Linked linked_to 0 m t =
        Linked-same h linked_to 0 m t (linked_to-Apart m a b) before in
      let of_t : Linked linked_to (last 0 m) (t ∷ []) item =
        (ap (λ i. i.prev) (linked_to-tail ne) ∙ at_t.0, ap (λ i. i.next) (linked_to-tail ne), tt) in
      Linked-append linked_to 0 (m ++ (t ∷ [])) (item ∷ []) 0
        (Linked-append linked_to 0 m (t ∷ []) item to_t of_t)
        (
          ap (λ i. i.prev) linked_to-item ∙ sym (last-append 0 m t),
          ap (λ i. i.next) linked_to-item,
          tt,
        )

add_behind :
    (h : Heap) (pool : Pool) (m : List ℕ) (t item : ℕ)
    → IsPool h pool (m ++ (t ∷ []))
    → item ≢ 0
    → Apart item (m ++ (t ∷ []))
    → length (m ++ (t ∷ [])) + 1 < int_mod
    → Grown h (m ++ (t ∷ [])) item (pool_add h pool item)
unfolding pool_add set_next
add_behind h pool m t item wf real apart few =
    let some_items : (pool.size == 0) ≡ false = ground (arith, wf.size, length-append m (t ∷ [])) in
    let at_tail : pool.tail ≡ t = wf.tail ∙ last-append 0 m t in
    let (real_m, real_t) = Apart-split 0 m (t ∷ []) wf.real in
    let not_null : (t == 0) ≡ false = zero-false t real_t.0 in
    let (apart_m, apart_t) = Apart-split item m (t ∷ []) apart in
    let (distinct_m, t_apart) = Distinct-unsnoc m t wf.distinct in
    (
      linked_to h t item,
      record { size = (pool.size + 1) % int_mod; head = pool.head; tail = item },
      rw (some_items, at_tail, not_null) refl,
      record {
        size = omega (arith, wf.size, few, length-append (m ++ (t ∷ [])) (item ∷ []));
        head = wf.head ∙ first_stays m;
        tail = sym (last-append 0 (m ++ (t ∷ [])) item);
        chain = linked_to-Linked h t item m wf.chain apart_m t_apart apart_t.0;
        real = All-append (λ x. x ≢ 0) (m ++ (t ∷ [])) (item ∷ []) wf.real (real, tt);
        distinct = Distinct-snoc (m ++ (t ∷ [])) item wf.distinct apart;
      },
      λ b ne outside.
          linked_to-other h t item b ne (λ e. (Apart-split b m (t ∷ []) outside).1.0 (sym e)),
    )
  where
    first_stays : (k : List ℕ) → first (k ++ (t ∷ [])) 0 ≡ first ((k ++ (t ∷ [])) ++ (item ∷ [])) 0
    first_stays [] = refl
    first_stays (x ∷ k) = refl

-- An item that is not null and not in the pool, which has less than 2 ^ 32 - 1 items, is put behind the items of the pool; the links of
-- items outside stay.
pub pool_add-Grown :
    (h : Heap) (pool : Pool) (l : List ℕ) (item : ℕ)
    → IsPool h pool l
    → item ≢ 0
    → Apart item l
    → length l + 1 < int_mod
    → Grown h l item (pool_add h pool item)
pool_add-Grown h pool l item wf real apart few = by_case (by_last l)
  where
    by_case :
        (l ≡ []) ⊎ ((m : List ℕ) × (t : ℕ) × (l ≡ m ++ (t ∷ [])))
        → Grown h l item (pool_add h pool item)
    by_case (inl e) =
        subst (λ k. Grown h k item (pool_add h pool item)) (sym e)
          (add_first h pool item (subst (IsPool h pool) e wf) real)
    by_case (inr (m, t, e)) =
        subst (λ k. Grown h k item (pool_add h pool item)) (sym e)
          (add_behind h pool m t item (subst (IsPool h pool) e wf) real (subst (Apart item) e apart)
            (subst (λ k. length k + 1 < int_mod) e few))
