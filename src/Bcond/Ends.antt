-- ===== src/Bcond/Ends.antt =====
-- lib/bcond.c: `parse_bcexp` ends on every text.
use spocp.Bcond.{Stree}
use spocp.Bcond.Parse.{
  bytes_of, begins_list, close_list, with_next, parse_at, parse_parts, parse_bcexp,
}
use spocp.Prelude.{
  ℕ, zero, suc, ◌+◌, ◌*◌, ◌<◌, ◌≤◌, Bytes, [], ◌∷◌, Bool, true, false, not, ◌&&◌, if◌then◌else◌,
  ◌==◌, length, arith, inl, inr, Bool-cases, Ends, Ends-bind, left, Result, ok, err, fault,
  unfinished, syntax_error, ◌>>=◌,
}
use spocp.Range.Ends.{get_str_cons-Ends}
use spocp.Sexp.{Piece, piece, runaway, get_str}

atom_end :
    (s : Bytes) (n : ℕ) (r : Result (Piece × Bytes))
    → Ends left n r
    → Ends left n (elim r [
      | ok x ↦ bytes_of x.0 >>= λ val. ok (Stree.atom val Stree.null, x.1)
      | err code ↦ err syntax_error
      | fault ↦ fault
      | unfinished ↦ unfinished
    ])
unfolding bytes_of
atom_end s n (ok (piece p, r)) h = h
atom_end s n (ok (runaway, r)) h = tt
atom_end s n (err e) h = tt
atom_end s n fault h = tt
atom_end s n unfinished h = absurd h

close_list-Ends : (st : Stree) (op : Bytes) (n : ℕ) → length op ≤ n → Ends left n (close_list st op)
unfolding close_list
close_list-Ends st [] n h = tt
close_list-Ends st (c ∷ op) n h = ground (arith, h)

-- The rest of the parts, behind one that has been parsed.
rest :
    (fuel : ℕ) (first : Bool) (st : Stree) (sexp : Bytes) (n : ℕ)
    → length sexp < n
    → Ends left (suc (length sexp)) (parse_parts fuel false sexp)
    → Ends left (suc n) (
        if first && not (begins_list st)
        then err syntax_error
        else (parse_parts fuel false sexp >>= λ y. ok (with_next st y.0, y.1)))
rest fuel first st sexp n small h = elim (Bool-cases (first && not (begins_list st))) [
  | inl bad ↦ rw bad tt
  | inr good ↦ rw good (
      Ends-bind left left (suc (length sexp)) (suc n) (parse_parts fuel false sexp) _ h
        (λ y less. omega (arith, small, less)))
]

mutual
  unfolding parse_at

  parse_at-Ends :
      (fuel : ℕ) (sexp : Bytes)
      → 2 * length sexp + 1 ≤ fuel
      → Ends left (length sexp) (parse_at fuel sexp)
  parse_at-Ends zero sexp h = absurd (omega (arith, h))
  parse_at-Ends (suc fuel) [] h = tt
  parse_at-Ends (suc fuel) (c ∷ sexp) h = elim (Bool-cases (c == b'(')) [
    | inl opened ↦ rw opened (
        Ends-bind left left (suc (length sexp)) (suc (length sexp)) (parse_parts fuel true sexp) _
          (parse_parts-Ends fuel true sexp (omega (arith, h)))
          (λ x small. close_list-Ends x.0 x.1 (suc (length sexp)) (omega (arith, small))))
    | inr other ↦ rw other (atom_end sexp _ (get_str (c ∷ sexp)) (get_str_cons-Ends c sexp))
  ]

  parse_parts-Ends :
      (fuel : ℕ) (first : Bool) (sexp : Bytes)
      → 2 * length sexp + 2 ≤ fuel
      → Ends left (suc (length sexp)) (parse_parts fuel first sexp)
  parse_parts-Ends zero first sexp h = absurd (omega (arith, h))
  parse_parts-Ends (suc fuel) first [] h = omega arith
  parse_parts-Ends (suc fuel) first (c ∷ sexp) h = elim (Bool-cases (c == b')')) [
    | inl closed ↦ rw closed (omega arith)
    | inr other ↦ rw other (
        Ends-bind left left (suc (length sexp)) _ (parse_at fuel (c ∷ sexp)) _
          (parse_at-Ends fuel (c ∷ sexp) (omega (arith, h)))
          (λ x small.
            rest fuel first x.0 x.1 (suc (length sexp)) small
              (parse_parts-Ends fuel false x.1 (omega (arith, h, small)))))
  ]

-- `parse_bcexp` ends on every text: its fuel does not run out, and where it returns a tree, it leaves a
-- text that is shorter than the one it was given.
pub parse_bcexp-Ends : (sexp : Bytes) → Ends left (length sexp) (parse_bcexp sexp)
unfolding parse_bcexp
parse_bcexp-Ends sexp = parse_at-Ends (2 * length sexp + 2) sexp (omega arith)
