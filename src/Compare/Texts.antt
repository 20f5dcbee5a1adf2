-- ===== src/Compare/Texts.antt =====
-- server/cmp.c: when `atom2rangecmp` finds a string in a range of strings.
use spocp.Compare.Answers.{Answers}
use spocp.Compare.{atom2boundarycmp, within, above, below, atom2rangecmp}
use spocp.Octet.Compare.Order.{LexLt, LexLt-asymm, LexLt-irrefl, Says, octcmp-Says}
use spocp.Octet.Compare.{octcmp}
use spocp.Prelude.{
  ℕ, [], ◌≤◌, Bytes, Option, none, some, Bool, true, false, not, if◌then◌else◌, length, int_max,
  is_negative, is_positive, Result, ok, ◌>>=◌, ◌≡◌, refl, sym, subst, ◌↔◌, ◌⊎◌, inl, inr, arith,
}
use spocp.Range.{Libc, Value, octets, alpha, Boundary, SpocpRange}

-- A limit of a range of strings, on one side: inside it, or equal to it where it is inclusive.
abbrev Side : Bool → Bool → (inside equal : Type 0) → Type 0
Side bound inclusive inside equal = bound ≡ true → inside ⊎ equal × (inclusive ≡ true)

abbrev text_of : Value → Bytes
text_of (octets s) = s
text_of _ = []

-- A string stands in the range, in the lexicographic order.
abbrev pub Within : Bytes → SpocpRange → Type 0
Within a r =
    Side r.lower.bound r.lower.equal (LexLt (text_of r.lower.value) a) (a ≡ text_of r.lower.value)
    × Side r.upper.bound r.upper.equal (LexLt a (text_of r.upper.value)) (a ≡ text_of r.upper.value)

-- A limit that is not given has no value.
abbrev pub limit : Option (Bool × Bytes) → Value → Boundary
limit none v = record { bound = false; equal = false; value = v }
limit (some (inclusive, s)) v = record { bound = true; equal = inclusive; value = octets s }

abbrev IsShort : Option (Bool × Bytes) → Type 0
IsShort none = Unit
IsShort (some (inclusive, s)) = length s ≤ int_max

-- A range of strings.
pub record IsText (r : SpocpRange) : Type 0 where
  pub lo : Option (Bool × Bytes)
  pub hi : Option (Bool × Bytes)
  pub v : Value
  pub w : Value
  pub limits : r ≡ record { type_of = alpha; lower = limit lo v; upper = limit hi w }
  pub short_lo : IsShort lo
  pub short_hi : IsShort hi

-- The test of one side, `p` strictly inside and `q` strictly outside.
test_iff :
    (e p q : Bool) (In Eq Out : Type 0)
    → (In → Eq → ⊥)
    → (Out → Eq → ⊥)
    → (In → Out → ⊥)
    → (p ≡ true) × (q ≡ false) × In
      ⊎ (p ≡ false) × (q ≡ false) × Eq
      ⊎ (p ≡ false) × (q ≡ true) × Out
    → ((if e then not q else p) ≡ true) ↔ (In ⊎ Eq × (e ≡ true))
test_iff true p q In Eq Out ie oe io (inl (hp, hq, h)) = rw hq (λ _. inl h, λ _. refl)
test_iff false p q In Eq Out ie oe io (inl (hp, hq, h)) = rw hp (λ _. inl h, λ _. refl)
test_iff true p q In Eq Out ie oe io (inr (inl (hp, hq, h))) = rw hq (λ _. inr (h, refl), λ _. refl)
test_iff false p q In Eq Out ie oe io (inr (inl (hp, hq, h))) =
    rw hp (λ e. cc, λ x. elim x [ inl i ↦ absurd (ie i h) | inr y ↦ absurd (let k = y.1 in cc) ])
test_iff true p q In Eq Out ie oe io (inr (inr (hp, hq, h))) =
    rw hq (λ e. cc, λ x. elim x [ inl i ↦ absurd (io i h) | inr y ↦ absurd (oe h y.0) ])
test_iff false p q In Eq Out ie oe io (inr (inr (hp, hq, h))) =
    rw hp (λ e. cc, λ x. elim x [ inl i ↦ absurd (io i h) | inr y ↦ absurd (oe h y.0) ])

-- The sign of a comparison of two strings.
at_limit :
    (s a : Bytes) (e : Bool) (d : ℕ)
    → Says d a s
    → (((if e then not (is_negative d) else is_positive d) ≡ true)
        ↔ (LexLt s a ⊎ (a ≡ s) × (e ≡ true)))
      × (((if e then not (is_positive d) else is_negative d) ≡ true)
          ↔ (LexLt a s ⊎ (a ≡ s) × (e ≡ true)))
at_limit s a e d h =
    let over : LexLt s a → a ≡ s → ⊥ = λ l q. LexLt-irrefl s a (sym q) l in
    let under : LexLt a s → a ≡ s → ⊥ = λ l q. LexLt-irrefl a s q l in
    (
      test_iff e (is_positive d) (is_negative d) (LexLt s a) (a ≡ s) (LexLt a s) over under
          (LexLt-asymm s a)
          (elim h [
            | inl (z, q) ↦ inr (inl (ground (arith, z), ground (arith, z), q))
            | inr (inl (n, l)) ↦ inr (inr (ground (arith, n), n, l))
            | inr (inr (p, l)) ↦ inl (p, ground (arith, p), l)
          ]),
      test_iff e (is_negative d) (is_positive d) (LexLt a s) (a ≡ s) (LexLt s a) under over
          (LexLt-asymm a s)
          (elim h [
            | inl (z, q) ↦ inr (inl (ground (arith, z), ground (arith, z), q))
            | inr (inl (n, l)) ↦ inl (n, ground (arith, n), l)
            | inr (inr (p, l)) ↦ inr (inr (ground (arith, p), p, l))
          ]),
    )

-- What one side of the range decides.
abbrev Tests : Result Bool → Type 0 → Type 0
Tests r P = (t : Bool) × (r ≡ ok t) × ((t ≡ true) ↔ P)

lower_tests :
    (libc : Libc) (a : Bytes) (lo : Option (Bool × Bytes)) (v : Value)
    → length a ≤ int_max
    → IsShort lo
    → let b = limit lo v in
      Tests
        (within libc a alpha b (above b))
        (Side b.bound b.equal (LexLt (text_of b.value) a) (a ≡ text_of b.value))
unfolding within atom2boundarycmp
lower_tests libc a none v h k = (true, refl, (λ _ e. cc, λ _. refl))
lower_tests libc a (some (e, s)) v h k =
    let d = octcmp (some a) (some s) in
    let iff = (at_limit s a e d (octcmp-Says a s h k)).0 in
    (if e then not (is_negative d) else is_positive d, refl, (λ t _. iff.0 t, λ x. iff.1 (x refl)))

upper_tests :
    (libc : Libc) (a : Bytes) (hi : Option (Bool × Bytes)) (v : Value)
    → length a ≤ int_max
    → IsShort hi
    → let b = limit hi v in
      Tests
        (within libc a alpha b (below b))
        (Side b.bound b.equal (LexLt a (text_of b.value)) (a ≡ text_of b.value))
unfolding within atom2boundarycmp
upper_tests libc a none v h k = (true, refl, (λ _ e. cc, λ _. refl))
upper_tests libc a (some (e, s)) v h k =
    let d = octcmp (some a) (some s) in
    let iff = (at_limit s a e d (octcmp-Says a s h k)).1 in
    (if e then not (is_positive d) else is_negative d, refl, (λ t _. iff.0 t, λ x. iff.1 (x refl)))

-- Both sides.
both_tests :
    (r s : Result Bool) (P Q : Type 0)
    → Tests r P
    → Tests s Q
    → Answers (r >>= λ l. if l then (s >>= λ u. ok (if◌then◌else◌ {A = ℕ} u 0 1)) else ok 1) (P × Q)
both_tests r s P Q (true, e, h) (true, f, k) =
    (0, rw e (rw f refl), (λ _. (h.0 refl, k.0 refl), λ _. refl))
both_tests r s P Q (true, e, h) (false, f, k) =
    (1, rw e (rw f refl), (λ z. absurd (omega (arith, z)), λ x. absurd (let n = k.1 x.1 in cc)))
both_tests r s P Q (false, e, h) (u, f, k) =
    (1, rw e refl, (λ z. absurd (omega (arith, z)), λ x. absurd (let n = h.1 x.0 in cc)))

-- `atom2rangecmp` returns, and returns 0 exactly if the string stands in the range.
pub range_answers :
    (libc : Libc) (a : Bytes) (r : SpocpRange)
    → length a ≤ int_max
    → IsText r
    → Answers (atom2rangecmp libc a r) (Within a r)
range_answers libc a r h t =
    subst (λ r. Answers (atom2rangecmp libc a r) (Within a r)) (sym t.limits)
      (unfold atom2rangecmp in
        both_tests _ _ _ _ (lower_tests libc a t.lo t.v h t.short_lo)
          (upper_tests libc a t.hi t.w h t.short_hi))
