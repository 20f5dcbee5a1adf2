-- ===== src/Octet/Search.antt =====
-- lib/oct.c: the searches in an octet string. They return an index, or -1, which is `none` here.
mod Index
pub mod First
pub mod Balance
pub mod Needle
use spocp.Prelude.{
  ℕ, zero, suc, ◌+◌, ◌-◌, Bytes, [], ◌∷◌, Option, none, some, Bool, true, false, ◌&&◌, ◌||◌, ◌==◌,
  ltb, if◌then◌else◌, length, Result, ok, fault,
}

-- The loop of `oct_find_balancing`: `n` counts the bytes left and `seen` the open pairs.
balance_loop : ℕ → ℕ → ℕ → ℕ → Bytes → Option ℕ
balance_loop left right len seen [] = none
balance_loop left right len seen (c ∷ q) =
    let n = length (c ∷ q) in
    let opened = balance_loop left right len (seen + 1) q in
    let closed = balance_loop left right len (seen - 1) q in
    let other = balance_loop left right len seen q in
    if c == left
    then opened
    else if c == right
    then if seen == 0 then some (len - n) else closed
    else other

unfoldable pub oct_find_balancing : Bytes → ℕ → ℕ → Option ℕ
unfolding balance_loop
oct_find_balancing o left right = balance_loop left right (length o) 0 o

octchr_loop : ℕ → ℕ → Bytes → Option ℕ
octchr_loop ch i [] = none
octchr_loop ch i (c ∷ cp) = if c == ch then some i else octchr_loop ch (i + 1) cp

unfoldable pub octchr : Bytes → ℕ → Option ℕ
unfolding octchr_loop
octchr op ch = octchr_loop ch 0 op

-- The inner loop of `octpbrk`.
one_of : Bytes → ℕ → Bool
one_of [] c = false
one_of (a ∷ acc) c = c == a || one_of acc c

octpbrk_loop : Bytes → ℕ → Bytes → Option ℕ
unfolding one_of
octpbrk_loop acc i [] = none
octpbrk_loop acc i (c ∷ op) = if one_of acc c then some i else octpbrk_loop acc (i + 1) op

unfoldable pub octpbrk : Bytes → Bytes → Option ℕ
unfolding octpbrk_loop
octpbrk op acc = octpbrk_loop acc 0 op

-- The inner loop of `octstr`: the rest of the needle against the bytes behind `sp`.
needle_at : Bytes → Bytes → Bool
needle_at [] op = true
needle_at (c ∷ np) [] = false
needle_at (c ∷ np) (d ∷ op) = d == c && needle_at np op

-- The outer loop, `m - n` rounds before its end.
octstr_loop : Bytes → ℕ → ℕ → Bytes → Option ℕ
unfolding needle_at
octstr_loop needle zero n sp = none
octstr_loop needle (suc rounds) n [] = none
octstr_loop needle (suc rounds) n (d ∷ sp) =
    if needle_at needle (d ∷ sp) then some n else octstr_loop needle rounds (n + 1) sp

-- On an empty needle the code reads behind the ends of both strings.
unfoldable pub octstr : Bytes → Bytes → Result (Option ℕ)
unfolding octstr_loop
octstr o [] = fault
octstr o (c ∷ np) =
    let needle = c ∷ np in
    if ltb (length o) (length needle)
    then ok none
    else ok (octstr_loop needle (length o - length needle + 1) 0 o)
