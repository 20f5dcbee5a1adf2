-- ===== src/Octet/Search/Index.antt =====
-- Indices found in the rest of a text, and counted from its start.
use spocp.Prelude.{ℕ, suc, ◌+◌, Option, none, some, ◌≡◌, refl, arith}

abbrev pub shift : ℕ → Option ℕ → Option ℕ
shift k none = none
shift k (some i) = some (k + i)

abbrev pub later : Option ℕ → Option ℕ
later none = none
later (some i) = some (suc i)

pub shift-later : (before : ℕ) (r : Option ℕ) → shift (before + 1) r ≡ shift before (later r)
shift-later before none = refl
shift-later before (some i) = ground arith

pub shift-zero : (r : Option ℕ) → shift 0 r ≡ r
shift-zero none = refl
shift-zero (some i) = ground arith
