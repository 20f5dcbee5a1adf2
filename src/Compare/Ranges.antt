-- ===== src/Compare/Ranges.antt =====
-- server/cmp.c: when `atom2rangecmp` finds an atom in a range.
use spocp.Compare.{atom2rangecmp, atom2boundarycmp}
use spocp.Prelude.{
  ℕ, int_max, if◌then◌else◌, not, ◌&&◌, ◌<◌, ◌≤◌, Bytes, Bool, true, false, is_negative,
  is_positive, Code, ok, err, ◌≡◌, ◌↔◌, ◌⊎◌, inl, inr, arith, refl, Bool-cases,
}
use spocp.Range.Order.{between}
use spocp.Range.{Libc, numeric, time, num, long_diff}
use spocp.Verify.Time.{time-not_numeric}
use spocp.Verify.{is_numeric, is_time}

two_sides :
    (b b' : Bool)
    → ((if b then ok (if◌then◌else◌ {A = ℕ} b' 0 1) else ok 1) ≡ ok 0) ↔ (b ≡ true) × (b' ≡ true)
two_sides true true = (λ _. (refl, refl), λ _. refl)
two_sides true false = (λ e. cc, λ x. cc)
two_sides false b' = (λ e. cc, λ x. cc)

above_iff :
    (n lo : ℕ) (le : Bool)
    → n ≤ int_max
    → lo ≤ int_max
    → ((if le then not (is_negative (long_diff n lo)) else is_positive (long_diff n lo)) ≡ true)
      ↔ (lo < n) ⊎ (lo ≡ n) × (le ≡ true)
above_iff n lo le hn hl = (λ h. ground arith, λ h. ground arith)

below_iff :
    (n hi : ℕ) (ue : Bool)
    → n ≤ int_max
    → hi ≤ int_max
    → ((if ue then not (is_positive (long_diff n hi)) else is_negative (long_diff n hi)) ≡ true)
      ↔ (n < hi) ⊎ (n ≡ hi) × (ue ≡ true)
below_iff n hi ue hn hh = (λ h. ground arith, λ h. ground arith)

-- A number is found in a numeric range with two limits exactly if it is above the lower one and below
-- the upper one, or equal to a limit that is inside, where all three are below 2 ^ 31.
pub numeric-atom2rangecmp :
    (libc : Libc) (a : Bytes) (n lo hi : ℕ) (le ue : Bool)
    → is_numeric a ≡ ok n
    → n ≤ int_max
    → lo ≤ int_max
    → hi ≤ int_max
    → (atom2rangecmp libc a (between numeric (num lo) le (num hi) ue) ≡ ok 0)
      ↔ ((lo < n) ⊎ (lo ≡ n) × (le ≡ true)) × ((n < hi) ⊎ (n ≡ hi) × (ue ≡ true))
unfolding atom2rangecmp atom2boundarycmp
numeric-atom2rangecmp libc a n lo hi le ue read hn hl hh =
    let sides =
      two_sides (if le then not (is_negative (long_diff n lo)) else is_positive (long_diff n lo))
        (if ue then not (is_positive (long_diff n hi)) else is_negative (long_diff n hi)) in
    let low = above_iff n lo le hn hl in
    let high = below_iff n hi ue hn hh in
    rw read
      (λ h. (let (x, y) = sides.0 h in (low.0 x, high.0 y)), λ h. sides.1 (low.1 h.0, high.1 h.1))

-- An atom that `is_numeric` refuses is found in every numeric range whose limits are both inside.
pub not_numeric-atom2rangecmp :
    (libc : Libc) (a : Bytes) (lo hi : ℕ) (e : Code)
    → is_numeric a ≡ err e
    → atom2rangecmp libc a (between numeric (num lo) true (num hi) true) ≡ ok 0
unfolding atom2rangecmp atom2boundarycmp
not_numeric-atom2rangecmp libc a lo hi e read = rw read refl

-- Every atom is found in every range of times whose limits are both inside, and none in one with a
-- limit that is not inside.
pub time-atom2rangecmp :
    (libc : Libc) (a : Bytes) (lo hi : ℕ) (le ue : Bool)
    → atom2rangecmp libc a (between time (num lo) le (num hi) ue) ≡ ok (if le && ue then 0 else 1)
unfolding atom2rangecmp atom2boundarycmp
time-atom2rangecmp libc a lo hi le ue = elim (Bool-cases (is_time a)) [
  | inl h ↦ rw (h, time-not_numeric a h) (ground arith)
  | inr h ↦ rw h (ground arith)
]
