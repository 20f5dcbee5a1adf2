-- ===== src/Verify/Time.antt =====
-- lib/verify.c and lib/input.c: what a verified time of day is worth.
use spocp.Prelude.{
  ℕ, ◌+◌, ◌-◌, ◌*◌, ◌≤◌, Bytes, [], ◌∷◌, true, ◌==◌, ok, ◌≡◌, arith, inl, inr, Bool-cases, Stops,
  syntax_error, err,
}
use spocp.Verify.{is_time, hms2int, is_numeric, numeric_end, numeric_loop}

-- The seconds since midnight that an accepted time of day stands for.
abbrev pub seconds : ℕ → ℕ → ℕ → ℕ
seconds h m s = h * 3600 + m * 60 + s

-- `hms2int` adds to its number an hour of at most 24, a minute and a second of at most 59, on every
-- text that `is_time` accepts.
pub hms2int-is_time :
    (op : Bytes) (num : ℕ)
    → is_time op ≡ true
    → (h : ℕ) × (m : ℕ) × (s : ℕ) × (hms2int op num ≡ ok (num + seconds h m s))
      × (h ≤ 24)
      × (m ≤ 59)
      × (s ≤ 59)
unfolding is_time hms2int
hms2int-is_time (a ∷ b ∷ c ∷ d ∷ e ∷ f ∷ g ∷ i ∷ []) num ok_time = (
  (a - b'0') * 10 + (b - b'0'),
  (d - b'0') * 10 + (e - b'0'),
  (g - b'0') * 10 + (i - b'0'),
  ground arith,
  ground arith,
  ground arith,
  ground arith,
)
hms2int-is_time _ num bad = cc

numeric_end-Stops : (x : ℕ × Bytes) → Stops (numeric_end x)
unfolding numeric_end
numeric_end-Stops (n, []) = ground arith
numeric_end-Stops (n, c ∷ sp) = tt

pub is_numeric-Stops : (op : Bytes) → Stops (is_numeric op)
unfolding is_numeric
is_numeric-Stops [] = tt
is_numeric-Stops (c ∷ op) = elim (Bool-cases (c == 0)) [
  | inl z ↦ rw z tt
  | inr some_c ↦ rw some_c (numeric_end-Stops (numeric_loop (c ∷ op) 0))
]

pub hms2int-Stops : (op : Bytes) (n : ℕ) → Stops (hms2int op n)
unfolding hms2int
hms2int-Stops (a ∷ b ∷ c ∷ d ∷ e ∷ f ∷ g ∷ h ∷ op) n = omega arith
hms2int-Stops _ n = tt

-- A time of day is no number: `is_numeric` refuses every text that `is_time` accepts, at its colon.
pub time-not_numeric : (op : Bytes) → is_time op ≡ true → is_numeric op ≡ err syntax_error
unfolding is_time is_numeric numeric_loop numeric_end
time-not_numeric (a ∷ b ∷ c ∷ d ∷ e ∷ f ∷ g ∷ h ∷ []) t = ground arith
time-not_numeric _ t = cc
