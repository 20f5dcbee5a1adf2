-- ===== src/Octet/Search/Balance.antt =====
-- lib/oct.c: `oct_find_balancing` stops at the first right byte that closes more than was opened.
use spocp.Prelude.{
  ℕ, zero, suc, ◌+◌, ◌-◌, ◌≤◌, Bytes, [], ◌∷◌, Option, none, some, ◌==◌, if◌then◌else◌, length,
  take, ◌≡◌, ◌≢◌, refl, arith, ◌∙◌, Bool-cases, inl, inr,
}
use spocp.Octet.Search.Index.{shift, later, shift-later, shift-zero}
use spocp.Octet.Search.{balance_loop, oct_find_balancing}

abbrev pub count : ℕ → Bytes → ℕ
count a [] = 0
count a (c ∷ s) = if c == a then suc (count a s) else count a s

-- At `i`, the right bytes are one more than the left ones and the open pairs; before, never.
abbrev pub Closes : ℕ → ℕ → ℕ → Bytes → Option ℕ → Type 0
Closes left right seen o none = (j : ℕ) → count right (take j o) ≤ seen + count left (take j o)
Closes left right seen o (some i) =
    (count right (take (suc i) o) ≡ suc (seen + count left (take (suc i) o)))
    × ((j : ℕ) → j ≤ i → count right (take j o) ≤ seen + count left (take j o))

-- One byte in front: `seen` before it and `seen'` behind it differ as the byte says.
module _ (left right seen seen' c : ℕ) (o : Bytes)
    (step : (x : Bytes)
      → count right (c ∷ x) + seen' + count left x
        ≡ seen + count left (c ∷ x) + count right x) where
  below :
      (bound : ℕ → Type 0)
      → ((j : ℕ) → bound j → count right (take j o) ≤ seen' + count left (take j o))
      → (j : ℕ) → ((k : ℕ) → j ≡ suc k → bound k)
      → count right (take j (c ∷ o)) ≤ seen + count left (take j (c ∷ o))
  below bound h zero b = omega arith
  below bound h (suc j) b = omega (arith, h j (b j refl), step (take j o))

  Closes-cons :
      (r : Option ℕ) → Closes left right seen' o r → Closes left right seen (c ∷ o) (later r)
  Closes-cons none h = λ j. below (λ _. Unit {0}) (λ k _. h k) j (λ k _. tt)
  Closes-cons (some i) h = (
    omega (arith, h.0, step (take (suc i) o)),
    λ j le. below (λ k. k ≤ i) h.1 j (λ k e. omega arith),
  )

below_nil : (left right seen j : ℕ) → count right (take j []) ≤ seen + count left (take j [])
below_nil left right seen zero = omega arith
below_nil left right seen (suc j) = omega arith

at_start :
    (left right c seen : ℕ) (o : Bytes) (j : ℕ)
    → j ≤ 0
    → count right (take j (c ∷ o)) ≤ seen + count left (take j (c ∷ o))
at_start left right c seen o zero le = omega arith
at_start left right c seen o (suc j) le = absurd (omega arith)

module _ (left right : ℕ) (differ : left ≢ right) where
  abbrev Found : ℕ → ℕ → Bytes → Option ℕ → Type 0
  Found before seen o found = (r : Option ℕ) × (found ≡ shift before r) × Closes left right seen o r

  Found-cons :
      (before seen seen' c : ℕ) (o : Bytes) (found : Option ℕ)
      → ((x : Bytes)
          → count right (c ∷ x) + seen' + count left x ≡ seen + count left (c ∷ x) + count right x)
      → Found (before + 1) seen' o found
      → Found before seen (c ∷ o) found
  Found-cons before seen seen' c o found step (r, e, h) =
      (later r, e ∙ shift-later before r, Closes-cons left right seen seen' c o step r h)

  balance_loop-Found :
      (o : Bytes) (len before seen : ℕ)
      → len ≡ before + length o
      → Found before seen o (balance_loop left right len seen o)
  unfolding balance_loop
  balance_loop-Found [] len before seen e = (none, refl, below_nil left right seen)
  balance_loop-Found (c ∷ o) len before seen e = elim (Bool-cases (c == left)) [
    | inl opens ↦ rw opens (
        Found-cons before seen (seen + 1) c o _ (λ x. ground arith)
          (balance_loop-Found o len (before + 1) (seen + 1) (omega arith)))
    | inr other ↦ elim (Bool-cases (c == right)) [
      | inr plain ↦
          rw (other, plain)
            (Found-cons before seen seen c o _ (λ x. ground arith)
              (balance_loop-Found o len (before + 1) seen (omega arith)))
      | inl closes ↦ elim (Bool-cases (seen == 0)) [
        | inl none_open ↦
            rw (other, closes, none_open)
              ((some 0, ground arith, (ground arith, at_start left right c seen o)))
        | inr some_open ↦
            rw (other, closes, some_open)
              (Found-cons before seen (seen - 1) c o _ (λ x. ground arith)
                (balance_loop-Found o len (before + 1) (seen - 1) (omega arith)))
      ]
    ]
  ]

-- For two different bytes, `oct_find_balancing` returns an index `i` up to which right bytes never
-- outnumber left ones, and at which they do; and -1 only if no beginning of the octets has more
-- right bytes than left ones.
pub oct_find_balancing-Closes :
    (o : Bytes) (left right : ℕ)
    → left ≢ right
    → Closes left right 0 o (oct_find_balancing o left right)
unfolding oct_find_balancing
oct_find_balancing-Closes o left right differ =
    let (r, e, h) = balance_loop-Found left right differ o (length o) 0 0 (omega arith) in
    rw (e, shift-zero r) h
