-- ===== src/Bcond/Names.antt =====
-- lib/bcond.c: the name of a definition that was given none.
use spocp.Bcond.Parse.{parse_bcexp, tree_of, is_ref, name_for, enter, bcdef_add}
use spocp.Bcond.{Stree, Bcexp, Bcdef, State, transv_stree}
use spocp.Prelude.{
  ℕ, suc, Bytes, List, [], ◌∷◌, Option, none, some, Result, ok, ◌≡◌, ap, ◌∙◌, err, fault,
  unfinished, ◌>>=◌, inl, inr, refl, Bool-cases, if◌then◌else◌,
}

-- The definition that is returned has the expression, and no name if that is a reference, and otherwise
-- this one.
abbrev pub Named : Bytes → Bcexp → Result (Option Bcdef × State) → Type 0
Named n bce r =
    (d : Bcdef) × (s : State) × (r ≡ ok (some d, s))
    × (d.exp ≡ some bce)
    × (d.name ≡ (if is_ref bce then none else some n))

enter-Named :
    (digest : Bytes → Bytes) (rest : Bytes) (a : ℕ) (bce : Bcexp) (s : State)
    → let z = enter digest none rest a bce s in
      (z.0.exp ≡ some bce) × (z.0.name ≡ (if is_ref bce then none else some (digest rest)))
unfolding enter name_for
enter-Named digest rest a bce s = elim (Bool-cases (is_ref bce)) [
  | inl alone ↦ rw alone (refl, refl)
  | inr named ↦ rw named (refl, refl)
]

-- A definition without a name whose text is one list, with nothing behind it, and stands for an expression,
-- is returned with that expression. It is named after the digest of no octets, whatever the text, unless it
-- is a reference, which has no name: two definitions of this kind get one name.
pub bcdef_add-Named :
    (digest : Bytes → Bytes) (p : List Bytes) (data_ : Bytes) (st : Stree) (bce : Bcexp)
    (s s' : State)
    → parse_bcexp (b'(' ∷ data_) ≡ ok (st, [])
    → transv_stree p st (record { defs = s.defs; free = suc s.free }) ≡ ok (some bce, s')
    → Named (digest []) bce (bcdef_add digest p none (b'(' ∷ data_) s)
unfolding bcdef_add
bcdef_add-Named digest p data_ st bce s s' parsed translated =
    let z = enter digest none [] s.free bce s' in
    let named = enter-Named digest [] s.free bce s' in (z.0, z.1, read, named.0, named.1)
  where
    read :
        bcdef_add digest p none (b'(' ∷ data_) s
        ≡ (let z = enter digest none [] s.free bce s' in ok (some z.0, z.1))
    read =
        ap
          (λ r. elim r [
            | err code ↦ ok (none, s)
            | ok x ↦ transv_stree p x.0 (record { defs = s.defs; free = suc s.free }) >>= λ y.
                elim y.0 [
                  | none ↦ ok (none, y.1)
                  | some bce ↦ (let z = enter digest none x.1 s.free bce y.1 in ok (some z.0, z.1))
                ]
            | fault ↦ fault
            | unfinished ↦ unfinished
          ])
          (unfold tree_of in parsed)
        ∙ rw translated refl
