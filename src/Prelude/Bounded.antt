-- ===== src/Prelude/Bounded.antt =====
-- Results of parsers: the fuel has not run out, and what is left is shorter.
use Prim.Native.Nat.{ℕ, ◌<◌, ◌≤◌}
use native.Mathlib.Omega.{arith}
use spocp.Prelude.Lists.{Bytes, length}
use spocp.Prelude.Outcome.{Result, ok, err, fault, unfinished, ◌>>=◌}

-- The fuel has not run out, and a result has a size below the bound.
abbrev pub Ends {ℓ} : {A : Type ℓ} → (A → ℕ) → ℕ → Result A → Type 0
Ends size n (ok a) = size a < n
Ends size n unfinished = ⊥
Ends size n _ = Unit

-- The size of a pair of a result and the octets left.
abbrev pub left {ℓ} : {A : Type ℓ} → A × Bytes → ℕ
left x = length x.1

pub Ends-bind {ℓ κ} :
    {A : Type ℓ} {B : Type κ} (size : A → ℕ) (size' : B → ℕ) (n k : ℕ) (m : Result A)
    (f : A → Result B)
    → Ends size n m
    → ((a : A) → size a < n → Ends size' k (f a))
    → Ends size' k (m >>= f)
Ends-bind size size' n k (ok a) f h next = next a h
Ends-bind size size' n k (err e) f h next = tt
Ends-bind size size' n k fault f h next = tt
Ends-bind size size' n k unfinished f h next = absurd h

pub Ends_mono {ℓ} :
    {A : Type ℓ} (size : A → ℕ) (n k : ℕ) (r : Result A) → n ≤ k → Ends size n r → Ends size k r
Ends_mono size n k (ok a) le h = omega arith
Ends_mono size n k (err e) le h = tt
Ends_mono size n k fault le h = tt
Ends_mono size n k unfinished le h = absurd h

-- A value that leaves no octets.
abbrev pub Stops {ℓ} : {A : Type ℓ} → Result A → Type 0
Stops r = Ends (λ _. 0) 1 r

-- A step that reads nothing.
pub Stops-bind {ℓ κ} :
    {A : Type ℓ} {B : Type κ} (size : B → ℕ) (k : ℕ) (m : Result A) (f : A → Result B)
    → Stops m
    → ((a : A) → Ends size k (f a))
    → Ends size k (m >>= f)
Stops-bind size k m f h next = Ends-bind (λ _. 0) size 1 k m f h (λ a _. next a)
