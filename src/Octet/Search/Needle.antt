-- ===== src/Octet/Search/Needle.antt =====
-- lib/oct.c: `octstr` finds the first occurrence of a string.
use spocp.Octet.Search.First.{IsFirst, from_start}
use spocp.Octet.Search.{needle_at, octstr_loop, octstr}
use spocp.Prelude.{
  ℕ, zero, suc, ◌+◌, ◌<◌, Bytes, [], ◌∷◌, Option, none, some, true, false, ok, ltb, if◌then◌else◌,
  length, take, ◌≡◌, refl, ◌↔◌, arith, Bool-cases, inl, inr, ltb→lt, ap, sym,
}

-- The rest begins with the needle.
abbrev pub Begins : Bytes → Bytes → Type 0
Begins needle rest = take (length needle) rest ≡ needle

needle_at_iff : (needle op : Bytes) → (needle_at needle op ≡ true) ↔ Begins needle op
unfolding needle_at
needle_at_iff [] [] = (λ _. refl, λ _. refl)
needle_at_iff [] (d ∷ op) = (λ _. refl, λ _. refl)
needle_at_iff (c ∷ np) [] = (λ h. cc, λ h. cc)
needle_at_iff (c ∷ np) (d ∷ op) =
    let ih = needle_at_iff np op in (λ h. ground (arith, ih.0), λ h. ground (arith, ih.1))

needle_at_short : (needle op : Bytes) → length op < length needle → needle_at needle op ≡ false
unfolding needle_at
needle_at_short [] op h = absurd (omega arith)
needle_at_short (c ∷ np) [] h = refl
needle_at_short (c ∷ np) (d ∷ op) h = ground (arith, needle_at_short np op (omega arith))

-- The search without a bound on its rounds.
find_needle : Bytes → ℕ → Bytes → Option ℕ
find_needle needle n [] = none
find_needle needle n (d ∷ sp) =
    if needle_at needle (d ∷ sp) then some n else find_needle needle (n + 1) sp

find_needle_short :
    (needle sp : Bytes) (n : ℕ) → length sp < length needle → find_needle needle n sp ≡ none
unfolding find_needle
find_needle_short needle [] n h = refl
find_needle_short needle (d ∷ sp) n h =
    rw (needle_at_short needle (d ∷ sp) h) (find_needle_short needle sp (n + 1) (omega arith))

octstr_loop-eq-find_needle :
    (needle : Bytes) (rounds n : ℕ) (sp : Bytes)
    → 0 < length needle
    → rounds + length needle ≡ suc (length sp)
    → octstr_loop needle rounds n sp ≡ find_needle needle n sp
unfolding octstr_loop find_needle
octstr_loop-eq-find_needle needle zero n sp h e = sym (find_needle_short needle sp n (omega arith))
octstr_loop-eq-find_needle needle (suc rounds) n [] h e = refl
octstr_loop-eq-find_needle needle (suc rounds) n (d ∷ sp) h e =
    rw (octstr_loop-eq-find_needle needle rounds (n + 1) sp h (omega arith))

find_needle-IsFirst : (needle o : Bytes) → IsFirst (Begins needle) o (find_needle needle 0 o)
unfolding find_needle
find_needle-IsFirst needle o =
    from_start (Begins needle) (find_needle needle) (needle_at needle) (λ i. refl) (λ i c o'. refl)
      (λ c o'. needle_at_iff needle (c ∷ o')) o

-- On a needle that is not empty `octstr` returns the first index at which it stands in the octets,
-- and -1 if it stands nowhere.
pub octstr-IsFirst :
    (o : Bytes) (c : ℕ) (np : Bytes)
    → (r : Option ℕ) × (octstr o (c ∷ np) ≡ ok r) × IsFirst (Begins (c ∷ np)) o r
unfolding octstr
octstr-IsFirst o c np = elim (Bool-cases (ltb (length o) (length (c ∷ np)))) [
  | inl short ↦ (
    find_needle (c ∷ np) 0 o,
    rw (short, find_needle_short (c ∷ np) o 0 (omega (arith, ltb→lt))),
    find_needle-IsFirst (c ∷ np) o,
  )
  | inr fits ↦ (
    find_needle (c ∷ np) 0 o,
    rw fits (ap ok (octstr_loop-eq-find_needle (c ∷ np) _ 0 o (omega arith) (ground arith))),
    find_needle-IsFirst (c ∷ np) o,
  )
]
