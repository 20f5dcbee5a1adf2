-- ===== src/Prelude/Outcome.antt =====
-- `spocp_result_t` of include/spocp.h, the codes that the modelled functions return, and the result
-- of a function that may return a code, or touch memory that is not its own.

pub data Code : Type 0 where
  success denied exists_already operations_error syntax_error : Code
  missing_char unknown_type not_supported unavailable buf_overflow : Code

-- `fault` stands for a read or write outside an octet string, or through a null pointer: what the
-- program does from there on is not determined by its text. `unfinished` says that the fuel of a
-- modelled loop has run out.
pub data Result {ℓ} (A : Type ℓ) : Type ℓ where
  ok : A → Result A
  err : Code → Result A
  fault : Result A
  unfinished : Result A

infixl 5 ◌>>=◌
abbrev pub ◌>>=◌ {ℓ κ} : {A : Type ℓ} {B : Type κ} → Result A → (A → Result B) → Result B
ok a >>= f = f a
err e >>= f = err e
fault >>= f = fault
unfinished >>= f = unfinished
