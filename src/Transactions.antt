-- ===== src/Transactions.antt =====
-- server/srv.c and server/opstack.c: transactions. BEGIN makes a connection collect its operations, and
-- COMMIT does them. What an operation does to the rules, and what undoes it, are arguments (`Database`).
pub mod Stack
pub mod Locked
use spocp.Prelude.{
  ℕ, Bytes, List, [], ◌∷◌, ◌++◌, Option, none, some, Bool, true, false, if◌then◌else◌, Code,
  success, denied, Result, ok, fault, ◌>>=◌, operations_error,
}
use spocp.Requests.{is_ok}

-- `opstack_t` without `next`: whether it is an ADD, its rule set, and its arguments.
pub record Op : Type 0 where
  pub is_add : Bool
  pub rs : ℕ
  pub oparg : List Bytes

-- The last element of a list, and what is linked behind it: that is what is returned.
unfoldable pub push_behind : Op → List Op → List Op → List Op
push_behind o [] b = o ∷ b
push_behind o (o' ∷ a) b = push_behind o' a b

unfoldable pub opstack_push : List Op → List Op → List Op
unfolding push_behind
opstack_push [] b = b
opstack_push (o ∷ a) b = push_behind o a b

-- An answer to a request that no code of the shared list stands for: SPOCP_UNWILLING, SPOCP_EXISTS and
-- SPOCP_CLOSE are `unwilling`, `exists` and `close`.
pub data Reply : Type 0 where
  code : Code → Reply
  unwilling exists close : Reply

-- `dbapi_rule_add` and `dbapi_rule_rm` of lib/dbapi.c for an operation, and their calls that undo it,
-- which take the arguments of COMMIT for those of a DELETE. Each returns a code and the rules.
pub record Database (S : Type 0) : Type 0 where
  pub perform : Op → S → Code × S
  pub undo : List Bytes → Op → S → Code × S

-- A connection, the mutex `transaction` of the root, and the rules.
pub record State (S : Type 0) : Type 0 where
  pub readonly : Bool
  pub transaction : Bool
  pub ops : List Op
  pub stop : Bool
  pub locked : Bool
  pub rules : S

-- `wi->oparg->arr[0]` is read for a DELETE: the first argument of COMMIT, which may have none.
unfoldable pub commit_argument : Op → List Bytes → Result (Unit {0})
commit_argument o [] = if o.is_add then ok tt else fault
commit_argument o (x ∷ l) = ok tt

module _ {S : Type 0} where
  -- `none` where the call waits for the mutex. `rights` is the code of `operation_access`, and `copied`
  -- whether `ss_dup` has returned a copy of the rule sets, which the connection uses from then on.
  unfoldable pub com_begin : Code → Bool → State S → Option (Reply × State S)
  unfolding is_ok
  com_begin rights copied s =
      if s.readonly
      then some (code denied, s)
      else if s.transaction
      then some (exists, s)
      else if is_ok rights
      then if s.locked
        then none
        else if copied
        then some (code success, record s { transaction = true; locked = true })
        else some (code operations_error, record s { transaction = false; locked = false })
      else some (code rights, s)

  unfoldable pub com_rollback : State S → Reply × State S
  com_rollback s =
      if s.readonly
      then (code denied, s)
      else if s.transaction
      then (code success, record s { ops = [] })
      else (unwilling, s)

  -- The operations are freed in a transaction, and the link to them is kept.
  unfoldable pub com_logout : State S → Reply × State S
  com_logout s = (close, record s { stop = true })

  -- An ADD or a DELETE that is allowed, in a transaction.
  unfoldable pub add_operation : Op → State S → State S
  unfolding opstack_push
  add_operation o s = record s { ops = opstack_push s.ops (o ∷ []) }

  module _ (db : Database S) (oparg : List Bytes) where
    -- The operations, with the one that failed, are undone in the order in which they were done, and each
    -- sets the code.
    unfoldable pub undo_loop : List Op → Code → S → Code × S
    undo_loop [] r rules = (r, rules)
    undo_loop (o ∷ ops) r rules =
        let (r', rules') = db.undo oparg o rules in undo_loop ops r' rules'

    -- The loop over the operations, with those that were done.
    unfoldable pub perform_loop : List Op → List Op → S → Result (Code × S)
    unfolding undo_loop is_ok commit_argument
    perform_loop before [] rules = ok (success, rules)
    perform_loop before (o ∷ ops) rules =
        let (r, rules') = db.perform o rules in
        let done = before ++ (o ∷ []) in
        let rest = perform_loop done ops rules' in
        commit_argument o oparg >>= λ _. if is_ok r then rest else ok (undo_loop done r rules')

    unfoldable pub com_commit : State S → Result (Reply × State S)
    unfolding perform_loop
    com_commit s =
        if s.readonly
        then ok (code denied, s)
        else if s.transaction
        then (perform_loop [] s.ops s.rules >>= λ p.
            ok (code p.0, record s { ops = []; transaction = false; rules = p.1 }))
        else ok (unwilling, s)
