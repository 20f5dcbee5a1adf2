-- ===== src/Varr/Dups.antt =====
-- lib/varr.c: `varr_rm_dup` leaves no two equal pointers.
use spocp.Prelude.{
  ℕ, zero, suc, ◌+◌, ◌<◌, List, [], ◌∷◌, if◌then◌else◌, Option, none, some, Bool, true, false, leb,
  Bool-cases, Result, ok, ◌≡◌, refl, ap, arith, inl, inr, ◌>>=◌,
}
use spocp.Varr.{Varr, count, rm_later, rm_pass, rm_dup_loop, varr_rm_dup}

-- No pointer behind `vp` is equal to it.
abbrev pub NoneLater : (ℕ → ℕ → Bool) → ℕ → List ℕ → Type 0
NoneLater cf vp [] = Unit
NoneLater cf vp (x ∷ l) = (cf x vp ≡ false) × NoneLater cf vp l

abbrev pub NoDups : (ℕ → ℕ → Bool) → List ℕ → Type 0
NoDups cf [] = Unit
NoDups cf (x ∷ l) = NoneLater cf x l × NoDups cf l

-- A search that finds nothing has the property; one that finds something leaves one pointer less.
abbrev Searched : Type 0 → ℕ → Option (List ℕ × ℕ) → Type 0
Searched P n none = P
Searched P n (some p) = suc (count p.0) ≡ n

rm_later-Searched :
    (cf : ℕ → ℕ → Bool) (vp : ℕ) (l : List ℕ)
    → Searched (NoneLater cf vp l) (count l) (rm_later cf vp l)
unfolding rm_later
rm_later-Searched cf vp [] = tt
rm_later-Searched cf vp (x ∷ l) = go (cf x vp) refl (rm_later cf vp l) (rm_later-Searched cf vp l)
  where
    go :
        (t : Bool)
        → cf x vp ≡ t
        → (r : Option (List ℕ × ℕ)) → Searched (NoneLater cf vp l) (count l) r
        → Searched
            (NoneLater cf vp (x ∷ l))
            (count (x ∷ l))
            (if t then some (l, x) else elim r [ none ↦ none | some p ↦ some (x ∷ p.0, p.1) ])
    go true e r h = refl
    go false e none h = (e, h)
    go false e (some p) h = ap suc h

rm_pass-Searched :
    (cf : ℕ → ℕ → Bool) (l : List ℕ) → Searched (NoDups cf l) (count l) (rm_pass cf l)
unfolding rm_pass
rm_pass-Searched cf [] = tt
rm_pass-Searched cf (x ∷ l) =
    go (rm_later cf x l) (rm_pass cf l) (rm_later-Searched cf x l) (rm_pass-Searched cf l)
  where
    go :
        (r s : Option (List ℕ × ℕ))
        → Searched (NoneLater cf x l) (count l) r
        → Searched (NoDups cf l) (count l) s
        → Searched (NoDups cf (x ∷ l)) (count (x ∷ l)) (elim r [
          | some p ↦ some (x ∷ p.0, p.1)
          | none ↦ elim s [ none ↦ none | some p ↦ some (x ∷ p.0, p.1) ]
        ])
    go (some p) s h k = ap suc h
    go none none h k = (h, k)
    go none (some p) h k = ap suc k

short-NoDups : (cf : ℕ → ℕ → Bool) (l : List ℕ) → leb (count l) 1 ≡ true → NoDups cf l
short-NoDups cf [] h = tt
short-NoDups cf (x ∷ []) h = (tt, tt)
short-NoDups cf (x ∷ y ∷ l) h = absurd (ground (arith, h))

-- A result without duplicates, with every pointer of the `n` either left or freed.
abbrev pub Cleared : (ℕ → ℕ → Bool) → ℕ → Result (List ℕ × List ℕ) → Type 0
Cleared cf n r = (q : List ℕ × List ℕ) × (r ≡ ok q) × NoDups cf q.0 × (count q.0 + count q.1 ≡ n)

rm_dup_loop-Cleared :
    (fuel : ℕ) (cf : ℕ → ℕ → Bool) (l : List ℕ)
    → count l < fuel
    → Cleared cf (count l) (rm_dup_loop fuel cf l)
unfolding rm_dup_loop
rm_dup_loop-Cleared zero cf l h = absurd (omega arith)
rm_dup_loop-Cleared (suc fuel) cf l h = elim (Bool-cases (leb (count l) 1)) [
  | inl short ↦ ((l, []), rw short refl, short-NoDups cf l short, omega arith)
  | inr long ↦ rw long (
      go (rm_pass cf l) (rm_pass-Searched cf l)
        (λ (m : List ℕ) (k : count m < fuel). rm_dup_loop-Cleared fuel cf m k))
]
  where
    go :
        (s : Option (List ℕ × ℕ))
        → Searched (NoDups cf l) (count l) s
        → ((m : List ℕ) → count m < fuel → Cleared cf (count m) (rm_dup_loop fuel cf m))
        → Cleared cf (count l) (elim s [
          | none ↦ ok (l, [])
          | some p ↦ rm_dup_loop fuel cf p.0 >>= λ q. ok (q.0, p.1 ∷ q.1)
        ])
    go none k next = ((l, []), refl, k, omega arith)
    go (some p) k next =
        let (q, e, clear, all) = next p.0 (omega arith) in
        ((q.0, p.1 ∷ q.1), rw e refl, clear, omega arith)

-- `varr_rm_dup` ends: it leaves pointers of which no later one equals an earlier one, and every
-- pointer of the array is either left or freed.
pub varr_rm_dup-Cleared :
    (va : Varr) (cf : ℕ → ℕ → Bool)
    → (va' : Varr) × (freed : List ℕ) × (varr_rm_dup va cf ≡ ok (va', freed))
      × NoDups cf va'.arr
      × (count va'.arr + count freed ≡ count va.arr)
unfolding varr_rm_dup
varr_rm_dup-Cleared va cf =
    let (q, e, clear, all) = rm_dup_loop-Cleared (suc (count va.arr)) cf va.arr (omega arith) in
    (record { size = va.size; arr = q.0 }, q.1, rw e refl, clear, all)
