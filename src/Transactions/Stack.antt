-- ===== src/Transactions/Stack.antt =====
-- server/opstack.c: the operations that a transaction has collected, and what COMMIT does of them.
use spocp.Prelude.{Bytes, List, [], ◌∷◌, true, false, Code, success, ok, ◌≡◌, ◌≢◌, refl, ap}
use spocp.Requests.{is_ok}
use spocp.Transactions.{
  Op, push_behind, opstack_push, code, Database, State, add_operation, commit_argument, undo_loop,
  perform_loop, com_commit,
}

last_of : Op → List Op → Op
last_of o [] = o
last_of o (o' ∷ a) = last_of o' a

push_behind-last_of : (o : Op) (a b : List Op) → push_behind o a b ≡ last_of o a ∷ b
unfolding push_behind last_of
push_behind-last_of o [] b = refl
push_behind-last_of o (o' ∷ a) b = push_behind-last_of o' a b

two_left : (l : List Op) (x y : Op) → opstack_push (opstack_push l (x ∷ [])) (y ∷ []) ≡ x ∷ y ∷ []
unfolding opstack_push push_behind
two_left [] x y = refl
two_left (o ∷ l) x y = ap (λ t. opstack_push t (y ∷ [])) (push_behind-last_of o l (x ∷ []))

add_argument : (o : Op) (oparg : List Bytes) → o.is_add ≡ true → commit_argument o oparg ≡ ok tt
unfolding commit_argument
add_argument o [] h = rw h refl
add_argument o (x ∷ l) h = refl

not_ok : (c : Code) → c ≢ success → is_ok c ≡ false
unfolding is_ok
not_ok success h = absurd (h refl)
not_ok c h = refl

module _ {S : Type 0} (db : Database S) (oparg : List Bytes) where
  perform_two :
      (x y : Op) (r r1 r2 : S)
      → x.is_add ≡ true
      → y.is_add ≡ true
      → db.perform x r ≡ (success, r1)
      → db.perform y r1 ≡ (success, r2)
      → perform_loop db oparg [] (x ∷ y ∷ []) r ≡ ok (success, r2)
  unfolding perform_loop is_ok
  perform_two x y r r1 r2 ax ay dx dy =
      rw (add_argument x oparg ax, add_argument y oparg ay, dx) (rw dy refl)

  -- In a transaction, whatever it has collected, COMMIT behind two more ADDs does these two and no other,
  -- where they succeed, and answers with a success.
  pub com_commit-add_operation :
      (s : State S) (x y : Op) (r1 r2 : S)
      → s.readonly ≡ false
      → s.transaction ≡ true
      → x.is_add ≡ true
      → y.is_add ≡ true
      → db.perform x s.rules ≡ (success, r1)
      → db.perform y r1 ≡ (success, r2)
      → com_commit db oparg (add_operation y (add_operation x s))
        ≡ ok (code success, record s { ops = []; transaction = false; rules = r2 })
  unfolding com_commit add_operation
  com_commit-add_operation s x y r1 r2 writable inside ax ay dx dy =
      rw (writable, inside, two_left s.ops x y, perform_two x y s.rules r1 r2 ax ay dx dy) refl

  undone_two :
      (x y : Op) (r r1 r2 r3 r4 : S) (c cx cy : Code)
      → x.is_add ≡ true
      → y.is_add ≡ true
      → db.perform x r ≡ (success, r1)
      → db.perform y r1 ≡ (c, r2)
      → is_ok c ≡ false
      → db.undo oparg x r2 ≡ (cx, r3)
      → db.undo oparg y r3 ≡ (cy, r4)
      → perform_loop db oparg [] (x ∷ y ∷ []) r ≡ ok (cy, r4)
  unfolding perform_loop is_ok undo_loop
  undone_two x y r r1 r2 r3 r4 c cx cy ax ay dx dy failed ux uy =
      rw (add_argument x oparg ax, add_argument y oparg ay, dx)
        (rw dy (rw failed (rw ux (rw uy refl))))

  -- Where the second of two ADDs fails, COMMIT undoes the first and then the second, and answers with the
  -- code of the last undo, be the code of the failure what it may.
  pub com_commit-undo_loop :
      (s : State S) (x y : Op) (r1 r2 r3 r4 : S) (c cx cy : Code)
      → s.readonly ≡ false
      → s.transaction ≡ true
      → s.ops ≡ x ∷ y ∷ []
      → x.is_add ≡ true
      → y.is_add ≡ true
      → db.perform x s.rules ≡ (success, r1)
      → db.perform y r1 ≡ (c, r2)
      → c ≢ success
      → db.undo oparg x r2 ≡ (cx, r3)
      → db.undo oparg y r3 ≡ (cy, r4)
      → com_commit db oparg s ≡ ok (code cy, record s { ops = []; transaction = false; rules = r4 })
  unfolding com_commit
  com_commit-undo_loop s x y r1 r2 r3 r4 c cx cy writable inside two ax ay dx dy failed ux uy =
      rw
        (
          writable,
          inside,
          two,
          undone_two x y s.rules r1 r2 r3 r4 c cx cy ax ay dx dy (not_ok c failed) ux uy,
        )
        refl
