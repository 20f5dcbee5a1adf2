-- ===== src/Pool/Remove.antt =====
-- server/pool.c: taking an item out of a pool.
use spocp.Pool.Chain.{
  first, last, Linked, Apart, Linked-append, Linked-split, Linked-same, with_next-other,
  with_prev-other, with_next_self, with_prev_self, with_next-Apart, with_prev-Apart,
}
use spocp.Pool.Links.{Distinct, IsPool, Apart-split, Distinct-unsnoc, last-append, zero-false}
use spocp.Pool.{
  Heap, Pool, with_next, with_prev, set_next, set_prev, cleared, unlink_next, unlink_prev, unlinked,
}
use spocp.Prelude.{
  ℕ, List, [], ◌∷◌, ◌++◌, true, false, ◌==◌, ==_iff, if◌then◌else◌, All, All-append, ◌≡◌, ◌≢◌, refl,
  sym, ap, ◌∙◌, subst, inl, inr, Bool-cases, ok,
}

-- The parts of a list without repetition.
pub Distinct-parts :
    (l m : List ℕ) → Distinct (l ++ m) → Distinct l × Distinct m × All (λ y. Apart y l) m
Distinct-parts [] m d = (tt, d, all_apart m)
  where
    all_apart : (k : List ℕ) → All (λ y. Apart y []) k
    all_apart [] = tt
    all_apart (y ∷ k) = (tt, all_apart k)
Distinct-parts (x ∷ l) m d =
    let (a, b, c) = Distinct-parts l m d.1 in
    let (e, f) = Apart-split x l m d.0 in ((e, a), b, both m f c)
  where
    both : (k : List ℕ) → Apart x k → All (λ y. Apart y l) k → All (λ y. Apart y (x ∷ l)) k
    both [] f c = tt
    both (y ∷ k) f c = (((λ e. f.0 (sym e)), c.0), both k f.1 c.1)

-- What is apart from all items is apart from the last.
from_last : (m : List ℕ) (t : ℕ) (k : List ℕ) → All (λ y. Apart y (m ++ (t ∷ []))) k → Apart t k
from_last m t [] h = tt
from_last m t (y ∷ k) h = ((λ e. (Apart-split y m (t ∷ []) h.0).1.0 (sym e)), from_last m t k h.1)

pub Distinct-join :
    (l m : List ℕ) → Distinct l → Distinct m → All (λ y. Apart y l) m → Distinct (l ++ m)
Distinct-join [] m a b c = b
Distinct-join (x ∷ l) m a b c =
    (All-append (λ y. y ≢ x) l m a.0 (heads m c), Distinct-join l m a.1 b (tails m c))
  where
    heads : (k : List ℕ) → All (λ y. Apart y (x ∷ l)) k → Apart x k
    heads [] h = tt
    heads (y ∷ k) h = ((λ e. h.0.0 (sym e)), heads k h.1)

    tails : (k : List ℕ) → All (λ y. Apart y (x ∷ l)) k → All (λ y. Apart y l) k
    tails [] h = tt
    tails (y ∷ k) h = (h.0.1, tails k h.1)

-- The last item is linked on to another one, and the first back to another one.
pub relink_last :
    (h : Heap) (p : ℕ) (m : List ℕ) (t n n' : ℕ)
    → Linked h p (m ++ (t ∷ [])) n
    → Apart t m
    → Linked (with_next h t n') p (m ++ (t ∷ [])) n'
unfolding Linked
relink_last h p m t n n' chain apart =
    let (before, at_t) = Linked-split h p m (t ∷ []) n chain in
    let self = with_next_self h t n' in
    Linked-append (with_next h t n') p m (t ∷ []) n'
      (Linked-same h (with_next h t n') p m t (with_next-Apart h t n' m apart) before)
      (ap (λ i. i.prev) self ∙ at_t.0, ap (λ i. i.next) self, tt)

pub relink_first :
    (h : Heap) (p p' y : ℕ) (k : List ℕ) (n : ℕ)
    → Linked h p (y ∷ k) n
    → Apart y k
    → Linked (with_prev h y p') p' (y ∷ k) n
unfolding Linked
relink_first h p p' y k n chain apart =
    let self = with_prev_self h y p' in
    (
      ap (λ i. i.prev) self,
      ap (λ i. i.next) self ∙ chain.1,
      Linked-same h (with_prev h y p') y k n (with_prev-Apart h y p' k apart) chain.2,
    )

-- An item outside a chain loses its links.
module _ (h : Heap) (x : ℕ) where
  pub cleared-other : (b : ℕ) → b ≢ x → cleared h x b ≡ h b
  unfolding cleared
  cleared-other b ne = with_prev-other (with_next h x 0) x 0 b ne ∙ with_next-other h x 0 b ne

  cleared-Apart : (l : List ℕ) → Apart x l → All (λ y. cleared h x y ≡ h y) l
  cleared-Apart [] a = tt
  cleared-Apart (y ∷ l) a = (cleared-other y a.0, cleared-Apart l a.1)

  pub cleared-Linked : (l : List ℕ) → Apart x l → Linked h 0 l 0 → Linked (cleared h x) 0 l 0
  cleared-Linked l a chain = Linked-same h (cleared h x) 0 l 0 (cleared-Apart l a) chain

-- What is left of a pool without the item between two lists, before its links are cleared.
abbrev pub Parted : Heap → Pool → ℕ → List ℕ → Type 0
Parted h pool x l =
    (h1 : Heap) × (unlinked h pool x ≡ ok (h1, first l 0, last 0 l))
    × Linked h1 0 l 0
    × ((b : ℕ) → Apart b l → h1 b ≡ h b)

pub eq-true : (a b : ℕ) → a ≡ b → a == b ≡ true
eq-true a b e = (==_iff a b).1 e

pub eq-false : (a b : ℕ) → a ≢ b → a == b ≡ false
eq-false a b h = elim (Bool-cases (a == b)) [ inl e ↦ absurd (h ((==_iff a b).0 e)) | inr n ↦ n ]

pub last-Apart : (x y : ℕ) (k : List ℕ) → Apart x (y ∷ k) → last y k ≢ x
last-Apart x y [] h = h.0
last-Apart x y (z ∷ k) h = last-Apart x z k h.1

pub first-Apart :
    (x : ℕ) (m : List ℕ) (t n : ℕ) → Apart x (m ++ (t ∷ [])) → first (m ++ (t ∷ [])) n ≢ x
first-Apart x [] t n h = h.0
first-Apart x (y ∷ m) t n h = h.0

pub first_stays :
    (m : List ℕ) (t n n' : ℕ) (k : List ℕ)
    → first ((m ++ (t ∷ [])) ++ k) n ≡ first (m ++ (t ∷ [])) n'
first_stays [] t n n' k = refl
first_stays (y ∷ m) t n n' k = refl

last_behind : (p : ℕ) (l m : List ℕ) → last p (l ++ m) ≡ last (last p l) m
last_behind p [] m = refl
last_behind p (x ∷ l) m = last_behind x l m

-- Two neighbours that are linked to each other.
module _ (h : Heap) (t y : ℕ) where
  abbrev joined : Heap
  joined = with_prev (with_next h t y) y t

  joined-other : (b : ℕ) → b ≢ t → b ≢ y → joined b ≡ h b
  joined-other b ne ne' = with_prev-other (with_next h t y) y t b ne' ∙ with_next-other h t y b ne

  joined-Linked :
      (x p p' : ℕ) (m k : List ℕ) (n : ℕ)
      → Linked h p (m ++ (t ∷ [])) x
      → Linked h p' (y ∷ k) n
      → Apart t m
      → Apart y k
      → Apart y (m ++ (t ∷ []))
      → Apart t (y ∷ k)
      → Linked joined p ((m ++ (t ∷ [])) ++ (y ∷ k)) n
  joined-Linked x p p' m k n before behind t_m y_k y_mt t_yk =
      let h1 = with_next h t y in
      let left =
        Linked-same h1 joined p (m ++ (t ∷ [])) y (with_prev-Apart h1 y t (m ++ (t ∷ [])) y_mt)
          (relink_last h p m t x y before t_m) in
      let right =
        relink_first h1 p' t y k n
          (Linked-same h h1 p' (y ∷ k) n (with_next-Apart h t y (y ∷ k) t_yk) behind) y_k in
      Linked-append joined p (m ++ (t ∷ [])) (y ∷ k) n left
        (subst (λ q. Linked joined q (y ∷ k) n) (sym (last-append p m t)) right)

-- Both neighbours are linked past the item.
module _ (h : Heap) (x t y : ℕ) (prev_t : (h x).prev ≡ t) (next_y : (h x).next ≡ y)
    (real_t : t == 0 ≡ false) (real_y : y == 0 ≡ false) where
  unlink_next_lem : unlink_next h x ≡ with_next h t y
  unfolding unlink_next
  unlink_next_lem =
      ap (λ p. if p == 0 then h else with_next h p (h x).next) prev_t
      ∙ ap (λ n. if t == 0 then h else with_next h t n) next_y
      ∙ ap (λ b. if b then h else with_next h t y) real_t

  unlink_prev-joined : x ≢ t → unlink_prev (unlink_next h x) x ≡ joined h t y
  unfolding unlink_prev
  unlink_prev-joined ne =
      let h1 = with_next h t y in
      let same_x = with_next-other h t y x ne in
      ap (λ g. unlink_prev g x) unlink_next_lem
      ∙ ap (λ n. if n == 0 then h1 else with_prev h1 n (h1 x).prev)
          (ap (λ i. i.next) same_x ∙ next_y)
      ∙ ap (λ p. if y == 0 then h1 else with_prev h1 y p) (ap (λ i. i.prev) same_x ∙ prev_t)
      ∙ ap (λ b. if b then h1 else with_prev h1 y t) real_y

module _ (h : Heap) (pool : Pool) (x : ℕ) where
  -- The only item.
  pub cut_only : IsPool h pool (x ∷ []) → Parted h pool x []
  unfolding unlinked Linked
  cut_only wf =
      let at_head = eq-true pool.head x wf.head in
      let alone = eq-true pool.head pool.tail (wf.head ∙ sym wf.tail) in
      (h, rw (at_head, alone) refl, tt, λ b apart. refl)

  -- The first of several.
  pub cut_first : (y : ℕ) (k : List ℕ) → IsPool h pool (x ∷ y ∷ k) → Parted h pool x (y ∷ k)
  unfolding unlinked set_prev Linked
  cut_first y k wf =
      let at_head = eq-true pool.head x wf.head in
      let others =
        eq-false pool.head pool.tail
          (λ e. last-Apart x y k wf.distinct.0 (sym wf.tail ∙ sym e ∙ wf.head)) in
      let next_y : (h x).next ≡ y = wf.chain.1 in
      let real = zero-false y wf.real.1.0 in
      let next_kept : (with_prev h y 0 x).next ≡ y =
        ap (λ i. i.next) (with_prev-other h y 0 x (λ e. wf.distinct.0.0 (sym e))) ∙ next_y in
      (
        with_prev h y 0,
        rw (at_head, others, next_y, real, next_kept, wf.tail) refl,
        relink_first h x 0 y k 0 wf.chain.2 wf.distinct.1.0,
        λ b apart. with_prev-other h y 0 b (λ e. apart.0 (sym e)),
      )

  -- The last of several.
  pub cut_last :
      (m : List ℕ) (t : ℕ)
      → IsPool h pool ((m ++ (t ∷ [])) ++ (x ∷ []))
      → Parted h pool x (m ++ (t ∷ []))
  unfolding unlinked set_next
  cut_last m t wf =
      let (d, e, f) = Distinct-parts (m ++ (t ∷ [])) (x ∷ []) wf.distinct in
      let (before, at_x) = Linked-split h 0 (m ++ (t ∷ [])) (x ∷ []) 0 wf.chain in
      let links = at_last x at_x in
      let not_head =
        eq-false pool.head x
          (λ same. first-Apart x m t 0 f.0 (sym (wf.head ∙ first_stays m t 0 0 (x ∷ [])) ∙ same)) in
      let at_tail = eq-true pool.tail x (wf.tail ∙ last-append 0 (m ++ (t ∷ [])) x) in
      let prev_t : (h x).prev ≡ t = links.0 ∙ last-append 0 m t in
      let ne : x ≢ t = λ same. (Apart-split x m (t ∷ []) f.0).1.0 (sym same) in
      let real =
        zero-false t
          ((Apart-split 0 m (t ∷ []) (Apart-split 0 (m ++ (t ∷ [])) (x ∷ []) wf.real).0).1.0) in
      let prev_kept : (with_next h t 0 x).prev ≡ t =
        ap (λ i. i.prev) (with_next-other h t 0 x ne) ∙ prev_t in
      (
        with_next h t 0,
        rw
            (
              not_head,
              at_tail,
              prev_t,
              real,
              prev_kept,
              wf.head,
              first_stays m t 0 0 (x ∷ []),
              last-append 0 m t,
            )
            refl,
        relink_last h 0 m t x 0 before (Distinct-unsnoc m t d).1,
        λ b apart.
            with_next-other h t 0 b (λ same. (Apart-split b m (t ∷ []) apart).1.0 (sym same)),
      )
    where
      at_last :
          (p : ℕ)
          → Linked h (last 0 (m ++ (t ∷ []))) (p ∷ []) 0
          → ((h p).prev ≡ last 0 (m ++ (t ∷ []))) × ((h p).next ≡ 0)
      at_last p links = unfold Linked in (links.0, links.1)

  -- One between two others.
  pub cut_middle :
      (m : List ℕ) (t y : ℕ) (k : List ℕ)
      → IsPool h pool ((m ++ (t ∷ [])) ++ (x ∷ y ∷ k))
      → Parted h pool x ((m ++ (t ∷ [])) ++ (y ∷ k))
  unfolding unlinked
  cut_middle m t y k wf =
      let (d, e, f) = Distinct-parts (m ++ (t ∷ [])) (x ∷ y ∷ k) wf.distinct in
      let (before, at_x) = Linked-split h 0 (m ++ (t ∷ [])) (x ∷ y ∷ k) 0 wf.chain in
      let links = at_middle at_x in
      let not_head = eq-false pool.head x (λ same.
        first-Apart x m t 0 f.0 (sym (wf.head ∙ first_stays m t 0 0 (x ∷ y ∷ k)) ∙ same)) in
      let at_tail : pool.tail ≡ last y k = wf.tail ∙ last_behind 0 (m ++ (t ∷ [])) (x ∷ y ∷ k) in
      let not_tail = eq-false pool.tail x (λ same. last-Apart x y k e.0 (sym at_tail ∙ same)) in
      let prev_t : (h x).prev ≡ t = links.0 ∙ last-append 0 m t in
      let next_y : (h x).next ≡ y = links.1 in
      let ne : x ≢ t = λ same. (Apart-split x m (t ∷ []) f.0).1.0 (sym same) in
      let reals = Apart-split 0 (m ++ (t ∷ [])) (x ∷ y ∷ k) wf.real in
      let real_t = zero-false t (Apart-split 0 m (t ∷ []) reals.0).1.0 in
      let real_y = zero-false y reals.1.1.0 in
      let past = unlink_prev-joined h x t y prev_t next_y real_t real_y ne in
      let head_kept =
        wf.head ∙ first_stays m t 0 0 (x ∷ y ∷ k) ∙ sym (first_stays m t 0 0 (y ∷ k)) in
      let tail_kept = at_tail ∙ sym (last_behind 0 (m ++ (t ∷ [])) (y ∷ k)) in
      (
        joined h t y,
        rw (not_head, not_tail)
            (ap (λ g. ok (g, pool.head, pool.tail)) past
              ∙ ap (λ a. ok (joined h t y, a, pool.tail)) head_kept
              ∙ ap (λ b. ok (joined h t y, first ((m ++ (t ∷ [])) ++ (y ∷ k)) 0, b)) tail_kept),
        joined-Linked h t y x 0 x m k 0 before links.2 (Distinct-unsnoc m t d).1 e.1.0 f.1.0
            (from_last m t (y ∷ k) f.1),
        λ b apart.
            let (a, c) = Apart-split b (m ++ (t ∷ [])) (y ∷ k) apart in
            joined-other h t y b (λ same. (Apart-split b m (t ∷ []) a).1.0 (sym same))
              (λ same. c.0 (sym same)),
      )
    where
      at_middle :
          Linked h (last 0 (m ++ (t ∷ []))) (x ∷ y ∷ k) 0
          → ((h x).prev ≡ last 0 (m ++ (t ∷ []))) × ((h x).next ≡ y) × Linked h x (y ∷ k) 0
      at_middle links = unfold Linked in (links.0, links.1, links.2)
