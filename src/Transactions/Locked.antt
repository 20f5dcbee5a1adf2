-- ===== src/Transactions/Locked.antt =====
-- server/srv.c: the mutex of a transaction.
use spocp.Prelude.{
  Bytes, List, none, some, Bool, true, false, Code, success, ok, ◌≡◌, refl, ◌∙◌, arith,
}
use spocp.Requests.{is_ok}
use spocp.Transactions.{
  Op, Reply, code, Database, State, com_begin, com_rollback, com_logout, add_operation, com_commit,
}

module _ {S : Type 0} (db : Database S) where
  -- An operation of a client that returns.
  pub data Step (s : State S) : State S → Type 0 where
    begins :
        (rights : Code) (copied : Bool) (r : Reply) (t : State S)
        → com_begin rights copied s ≡ some (r, t)
        → Step s t
    rolls_back : Step s (com_rollback s).1
    logs_out : Step s (com_logout s).1
    collects : (o : Op) → Step s (add_operation o s)
    commits :
        (oparg : List Bytes) (r : Reply) (t : State S)
        → com_commit db oparg s ≡ ok (r, t)
        → Step s t

  pub data Steps (s : State S) : State S → Type 0 where
    here : Steps s s
    next : {t u : State S} → Steps s t → Step t u → Steps s u

  com_begin-locked :
      (rights : Code) (copied : Bool) (s t : State S) (r : Reply)
      → s.locked ≡ true
      → com_begin rights copied s ≡ some (r, t)
      → t.locked ≡ true
  unfolding com_begin
  com_begin-locked rights copied s t r h e = ground (arith, h, e)

  com_commit-locked :
      (oparg : List Bytes) (s t : State S) (r : Reply)
      → s.locked ≡ true
      → com_commit db oparg s ≡ ok (r, t)
      → t.locked ≡ true
  unfolding com_commit
  com_commit-locked oparg s t r h e = ground (arith, h, e)

  Step-locked : {s t : State S} → Step s t → s.locked ≡ true → t.locked ≡ true
  unfolding com_rollback com_logout add_operation
  Step-locked {s} (begins rights copied r t e) h = com_begin-locked rights copied s t r h e
  Step-locked rolls_back h = ground (arith, h)
  Step-locked logs_out h = h
  Step-locked (collects o) h = h
  Step-locked {s} (commits oparg r t e) h = com_commit-locked oparg s t r h e

  Steps-locked : {s t : State S} → Steps s t → s.locked ≡ true → t.locked ≡ true
  Steps-locked here h = h
  Steps-locked (next l st) h = Step-locked st (Steps-locked l h)

  begun_lock :
      (s t : State S)
      → com_begin success true s ≡ some (code success, t)
      → s.readonly ≡ false
      → s.transaction ≡ false
      → t.locked ≡ true
  unfolding com_begin is_ok
  begun_lock s t e writable outside = ground (arith, e, writable, outside)

  -- Once a BEGIN has succeeded, on any connection that shares the rules, be they changed since by any
  -- operations that return, a BEGIN outside a transaction that is allowed never returns.
  pub com_begin_waits :
      (s t u v : State S) (copied : Bool)
      → s.readonly ≡ false
      → s.transaction ≡ false
      → com_begin success true s ≡ some (code success, t)
      → Steps t u
      → v.locked ≡ u.locked
      → v.readonly ≡ false
      → v.transaction ≡ false
      → com_begin success copied v ≡ none
  unfolding com_begin is_ok
  com_begin_waits s t u v copied writable outside e steps shared writable' outside' =
      let h : v.locked ≡ true = shared ∙ Steps-locked steps (begun_lock s t e writable outside) in
      rw (writable', outside', h) refl
