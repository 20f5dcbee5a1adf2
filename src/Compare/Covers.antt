-- ===== src/Compare/Covers.antt =====
-- server/cmp.c: what `elementcmp` decides, as a relation on elements.
use spocp.Compare.{
  elementcmp, element2setcmp, listcmp, atomcmp, atom2prefixcmp, atom2suffixcmp, suffixcmp,
  prefixcmp, rangecmp, atom2rangecmp,
}
use spocp.Element.{Element, Elements, atom, list, set, prefix, suffix, range, nil, cons}
use spocp.Octet.Compare.{memcmp, octcmp}
use spocp.Octet.Compare.Order.{octcmp-Says, LexLt-irrefl}
use spocp.Octet.Compare.Prefix.{octncmp-take}
use spocp.Prelude.{
  ℕ, zero, suc, min, ==_refl, ◌≤◌, Bytes, [], ◌∷◌, some, leb, ◌==◌, length, take, int_max, ok, ◌≡◌,
  refl, sym, subst, ◌↔◌, ◌⊎◌, inl, inr, arith, Bool-cases,
}
use spocp.Range.{Libc}
use spocp.Compare.Decides.{Decides, Decides_or, Decides_and, range_decides}

-- The second element covers the first: an equal atom; an atom that begins with the prefix; an atom as
-- long as the suffix; an atom in the range; a member that covers it; a list whose elements, as many
-- as the second list has, are covered one by one; and any range covers any range.
abbrev mutual
  pub Covers : Libc → Element → Element → Type 0
  Covers libc (atom a) (atom b) = a ≡ b
  Covers libc (atom a) (prefix b) = (length b ≤ length a) × (take (length b) a ≡ b)
  Covers libc (atom a) (suffix b) = length a ≡ length b
  Covers libc (atom a) (range b) = atom2rangecmp libc a b ≡ ok 0
  Covers libc (atom a) (set es) = AnyCovers libc (atom a) es
  Covers libc (prefix a) (prefix b) = a ≡ b
  Covers libc (suffix a) (suffix b) = a ≡ b
  Covers libc (range a) (range b) = Unit
  Covers libc (range a) (set es) = AnyCovers libc (range a) es
  Covers libc (list la) (list lb) = AllCover libc la lb
  Covers libc a b = ⊥

  pub AnyCovers : Libc → Element → Elements → Type 0
  AnyCovers libc a nil = ⊥
  AnyCovers libc a (cons e es) = Covers libc a e ⊎ AnyCovers libc a es

  pub AllCover : Libc → Elements → Elements → Type 0
  AllCover libc la nil = Unit
  AllCover libc nil (cons b lb) = ⊥
  AllCover libc (cons a la) (cons b lb) = Covers libc a b × AllCover libc la lb

-- No atom is longer than `INT_MAX`.
abbrev mutual
  pub IsShort : Element → Type 0
  IsShort (atom s) = length s ≤ int_max
  IsShort (prefix s) = length s ≤ int_max
  IsShort (suffix s) = length s ≤ int_max
  IsShort (list es) = AreShort es
  IsShort (set es) = AreShort es
  IsShort _ = Unit

  pub AreShort : Elements → Type 0
  AreShort nil = Unit
  AreShort (cons e es) = IsShort e × AreShort es

pub octcmp_zero :
    (a b : Bytes)
    → length a ≤ int_max
    → length b ≤ int_max
    → (octcmp (some a) (some b) ≡ 0) ↔ (a ≡ b)
octcmp_zero a b ha hb = elim (octcmp-Says a b ha hb) [
  | inl (z, e) ↦ (λ _. e, λ _. z)
  | inr (inl (n, l)) ↦ (λ z. absurd (ground (arith, n, z)), λ e. absurd (LexLt-irrefl a b e l))
  | inr (inr (n, l)) ↦
      (λ z. absurd (ground (arith, n, z)), λ e. absurd (LexLt-irrefl b a (sym e) l))
]

pub prefix_zero :
    (a b : Bytes) → (atom2prefixcmp a b ≡ 0) ↔ (length b ≤ length a) × (take (length b) a ≡ b)
unfolding atom2prefixcmp
prefix_zero a b = elim (Bool-cases (leb (length b) (length a))) [
  | inl le ↦
      let h = octncmp-take a b (ground (arith, le)) in
      rw le (λ z. (ground (arith, le), h.0 z), λ x. h.1 x.1)
  | inr gt ↦ rw gt (λ z. absurd (omega (arith, z)), λ x. absurd (ground (arith, gt, x.0)))
]

memcmp_refl : (a : Bytes) (n : ℕ) → memcmp a a n ≡ 0
unfolding memcmp
memcmp_refl [] n = refl
memcmp_refl (x ∷ a) zero = refl
memcmp_refl (x ∷ a) (suc n) = rw (==_refl x) (memcmp_refl a n)

octcmp_refl : (a : Bytes) → octcmp (some a) (some a) ≡ 0
unfolding octcmp
octcmp_refl a = rw (memcmp_refl a (min (length a) (length a))) (omega arith)

suffix_decides : (a b : Bytes) → Decides (atom2suffixcmp a b) (length a ≡ length b)
unfolding atom2suffixcmp
suffix_decides a b = elim (Bool-cases (leb (length b) (length a))) [
  | inl le ↦ elim (Bool-cases (length a == length b)) [
    | inl eq ↦ rw (le, eq) (λ z. ground (arith, eq), λ e. octcmp_refl b)
    | inr ne ↦ rw (le, ne) tt
  ]
  | inr gt ↦ rw gt (λ z. absurd (omega (arith, z)), λ e. absurd (ground (arith, gt, e)))
]

mutual
  unfolding elementcmp atomcmp suffixcmp prefixcmp rangecmp

  elementcmp_decides :
      (libc : Libc) (a b : Element)
      → IsShort a
      → IsShort b
      → Decides (elementcmp libc a b) (Covers libc a b)
  elementcmp_decides libc (atom a) (atom b) ha hb = octcmp_zero a b ha hb
  elementcmp_decides libc (atom a) (prefix b) ha hb = prefix_zero a b
  elementcmp_decides libc (atom a) (suffix b) ha hb = suffix_decides a b
  elementcmp_decides libc (atom a) (range b) ha hb = range_decides (atom2rangecmp libc a b)
  elementcmp_decides libc (atom a) (set nil) ha hb = tt
  elementcmp_decides libc (atom a) (set (cons e es)) ha hb =
      element2setcmp_decides libc (atom a) (cons e es) ha hb
  elementcmp_decides libc (prefix a) (prefix b) ha hb = octcmp_zero a b ha hb
  elementcmp_decides libc (suffix a) (suffix b) ha hb = octcmp_zero a b ha hb
  elementcmp_decides libc (range a) (range b) ha hb = (λ z. tt, λ u. refl)
  elementcmp_decides libc (range a) (set nil) ha hb = tt
  elementcmp_decides libc (range a) (set (cons e es)) ha hb =
      element2setcmp_decides libc (range a) (cons e es) ha hb
  elementcmp_decides libc (list la) (list lb) ha hb = listcmp_decides libc la lb ha hb
  elementcmp_decides libc a b ha hb = (λ z. absurd (omega (arith, z)), λ u. absurd u)

  element2setcmp_decides :
      (libc : Libc) (a : Element) (es : Elements)
      → IsShort a
      → AreShort es
      → Decides (element2setcmp libc a es) (AnyCovers libc a es)
  element2setcmp_decides libc a nil ha h = (λ z. absurd (omega (arith, z)), λ u. absurd u)
  element2setcmp_decides libc a (cons e es) ha (h, hs) =
      Decides_or _ _ _ _ (elementcmp_decides libc a e ha h) (element2setcmp_decides libc a es ha hs)

  listcmp_decides :
      (libc : Libc) (la lb : Elements)
      → AreShort la
      → AreShort lb
      → Decides (listcmp libc la lb) (AllCover libc la lb)
  listcmp_decides libc la nil ha hb = (λ z. tt, λ u. refl)
  listcmp_decides libc nil (cons b lb) ha hb = (λ z. absurd (omega (arith, z)), λ u. absurd u)
  listcmp_decides libc (cons a la) (cons b lb) (ha, has) (hb, hbs) =
      Decides_and _ _ _ _ (elementcmp_decides libc a b ha hb) (listcmp_decides libc la lb has hbs)

-- `elementcmp` decides the relation: where it returns, on elements without an atom of more than
-- `INT_MAX` bytes, it returns 0 if the second element covers the first, and only then.
pub elementcmp-Covers :
    (libc : Libc) (a b : Element) (v : ℕ)
    → IsShort a
    → IsShort b
    → elementcmp libc a b ≡ ok v
    → (v ≡ 0) ↔ Covers libc a b
elementcmp-Covers libc a b v ha hb e =
    subst (λ r. Decides r (Covers libc a b)) e (elementcmp_decides libc a b ha hb)
