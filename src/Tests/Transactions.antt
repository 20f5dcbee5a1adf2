-- ===== src/Tests/Transactions.antt =====
-- Concrete transactions for the theorems on COMMIT and BEGIN.
use spocp.Prelude.{
  ℕ, ◌+◌, ◌-◌, List, [], ◌∷◌, none, Bool, true, false, success, denied, ok, if◌then◌else◌, ◌==◌,
  ◌≡◌, refl,
}
use spocp.Transactions.Locked.{here, com_begin_waits}
use spocp.Transactions.Stack.{com_commit-add_operation, com_commit-undo_loop}
use spocp.Transactions.{Op, code, Database, State, com_begin, com_commit, add_operation}

-- The rules are their number; a rule set of the number 9 takes none.
abbrev counted : Database ℕ
counted = record {
  perform = λ o n. if o.rs == 9 then (denied, n) else (success, n + 1);
  undo = λ l o n. (success, n - 1);
}

abbrev adding : ℕ → Op
adding rs = record { is_add = true; rs = rs; oparg = [] }

abbrev state : Bool → List Op → Bool → State ℕ
state transaction ops locked = record {
  readonly = false;
  transaction = transaction;
  ops = ops;
  stop = false;
  locked = locked;
  rules = 4;
}

com_commit-add_operation_example :
    com_commit counted []
      (add_operation (adding 2) (add_operation (adding 1) (state true (adding 0 ∷ []) true)))
    ≡ ok (
      code success,
      record (state true (adding 0 ∷ []) true) { ops = []; transaction = false; rules = 6 },
    )
com_commit-add_operation_example =
    com_commit-add_operation counted [] (state true (adding 0 ∷ []) true) (adding 1) (adding 2) 5 6
      refl refl refl refl refl refl

com_commit-undo_loop_example :
    com_commit counted [] (state true (adding 1 ∷ adding 9 ∷ []) true)
    ≡ ok (
      code success,
      record (state true (adding 1 ∷ adding 9 ∷ []) true) {
        ops = [];
        transaction = false;
        rules = 3;
      },
    )
com_commit-undo_loop_example =
    com_commit-undo_loop counted [] (state true (adding 1 ∷ adding 9 ∷ []) true) (adding 1)
      (adding 9) 5 5 4 3 denied success success refl refl refl refl refl refl refl (λ e. cc) refl
      refl

com_begin_waits_example : com_begin success true (state false [] true) ≡ none
unfolding com_begin
com_begin_waits_example =
    com_begin_waits counted (state false [] false) (state true [] true) (state true [] true)
      (state false [] true) true refl refl refl here refl refl refl
