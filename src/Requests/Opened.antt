-- ===== src/Requests/Opened.antt =====
-- server/srv.c: what a success of `opinitial` says.
use spocp.Octarr.{Octarr, octarr_pop}
use spocp.Prelude.{
  ℕ, ◌+◌, ◌≤◌, Bytes, List, [], ◌∷◌, Option, none, some, Bool, true, false, not, ◌&&◌, ◌==◌, ==_iff,
  ltb, if◌then◌else◌, length, Result, ok, fault, ◌>>=◌, Code, success, denied, exists_already,
  operations_error, syntax_error, missing_char, unknown_type, not_supported, unavailable,
  buf_overflow, err, unfinished, subst, Bool-cases, ◌≡◌, ◌≢◌, refl, sym, ap, ◌∙◌, ◌⊎◌, inl, inr,
  arith,
}
use spocp.Requests.{Answer, code, missing_arg, param_error, is_ok}
use spocp.Requests.Initial.{
  Initial, stay, found_ruleset, find_ruleset, choose_ruleset, with_access, begins_path, copied,
  pop_path, opinitial,
}
use spocp.Rulesets.Find.{Name, ruleset_find}
use spocp.Rulesets.{Level, Node}

bind_ok {ℓ κ} :
    {A : Type ℓ} {B : Type κ} (m : Result A) (f : A → Result B) (b : B)
    → (m >>= f) ≡ ok b
    → (a : A) × (m ≡ ok a) × (f a ≡ ok b)
bind_ok (ok a) f b h = (a, refl, h)
bind_ok (err e) f b h = cc
bind_ok fault f b h = cc
bind_ok unfinished f b h = cc

ok_same : (i j : Initial) → ok i ≡ ok j → i ≡ j
ok_same i j e = cc

is_ok_success : (c : Code) → is_ok c ≡ true → c ≡ success
unfolding is_ok
is_ok_success success h = refl
is_ok_success denied h = cc
is_ok_success exists_already h = cc
is_ok_success operations_error h = cc
is_ok_success syntax_error h = cc
is_ok_success missing_char h = cc
is_ok_success unknown_type h = cc
is_ok_success not_supported h = cc
is_ok_success unavailable h = cc
is_ok_success buf_overflow h = cc

begins_path-true :
    (l : List Bytes)
    → begins_path l ≡ ok true
    → (s : Bytes) × (r : List Bytes) × (l ≡ (b'/' ∷ s) ∷ r)
unfolding begins_path
begins_path-true [] h = cc
begins_path-true ([] ∷ r) h = cc
begins_path-true ((c ∷ s) ∷ r) h = (s, r, ap (λ t. (t ∷ s) ∷ r) ((==_iff c b'/').0 (ok_true _ h)))
  where
    ok_true : (b : Bool) → ok b ≡ ok true → b ≡ true
    ok_true b e = cc

octarr_pop_cons :
    (oa : Octarr) (x : Bytes) (l : List Bytes)
    → oa.arr ≡ x ∷ l
    → octarr_pop oa ≡ (record { size = oa.size; arr = l }, some x)
unfolding octarr_pop
octarr_pop_cons oa x l e = rw (e, octarr_pop) refl

within : (m k n : ℕ) → (not (m == 0) && ltb (k + m) n) ≡ false → m ≢ 0 → n ≤ k + m
within m k n h real = elim (Bool-cases (m == 0)) [
  | inl z ↦ absurd (real ((==_iff m 0).0 z))
  | inr nz ↦ ground (arith, nz, h)
]

not_granted : (c : Code) → is_ok c ≡ false → code c ≡ code success → ⊥
unfolding is_ok
not_granted success h e = cc
not_granted c h e = cc

-- The arguments and the path that are left of all arguments.
abbrev pub Popped : Bool → Octarr → Octarr → Option Name → Type 0
Popped path all left p =
    (left ≡ all) × (p ≡ none)
    ⊎ (path ≡ true)
      × ((s : Bytes) × (l : List Bytes) × (all.arr ≡ (b'/' ∷ s) ∷ l)
          × (left.arr ≡ l)
          × (p ≡ some (copied (b'/' ∷ s))))

-- The bound on the number of arguments counts the path, be there one or not.
abbrev pub Bounded : Bool → ℕ → Octarr → Type 0
Bounded path most all = most ≢ 0 → length all.arr ≤ (if path then 1 else 0) + most

module _ (access : Octarr → Option Name → Code) (root : Level) (current : Node) where
  -- The rule set of a success: the one that was given, or the one that the path names.
  abbrev pub Chosen : Option Name → Initial → Type 0
  Chosen none i = (i.oppath ≡ none) × (i.rs ≡ some current)
  Chosen (some p) i =
      (n : Node) × (q : Name) × (ruleset_find p root ≡ ok (some n, q))
      × (i.oppath ≡ some q)
      × (i.rs ≡ some n)

  -- The access was allowed with the arguments that are left and the path.
  abbrev pub Allowed : Octarr → Option Name → ℕ → Initial → Type 0
  Allowed oa path least i =
      (i.oparg ≡ some oa) × (access oa path ≡ success) × (least ≤ length oa.arr) × Chosen path i

  found_ruleset-Chosen :
      (oa : Octarr) (p q : Name) (r : Option Node) (i : Initial)
      → ruleset_find p root ≡ ok (r, q)
      → found_ruleset oa r q ≡ i
      → i.answer ≡ code success
      → (i.oparg ≡ some oa) × Chosen (some p) i
  unfolding found_ruleset
  found_ruleset-Chosen oa p q none i found e s = cc
  found_ruleset-Chosen oa p q (some n) i found e s =
      subst (λ j. (j.oparg ≡ some oa) × Chosen (some p) j) e (refl, (n, q, found, refl, refl))

  choose_ruleset-Chosen :
      (oa : Octarr) (path : Option Name) (i : Initial)
      → choose_ruleset root current oa path ≡ ok i
      → i.answer ≡ code success
      → (i.oparg ≡ some oa) × Chosen path i
  unfolding choose_ruleset stay find_ruleset
  choose_ruleset-Chosen oa none i e s =
      subst (λ j. (j.oparg ≡ some oa) × Chosen none j) (ok_same _ i e) (refl, (refl, refl))
  choose_ruleset-Chosen oa (some p) i e s =
      let (r, found, eq) = bind_ok (ruleset_find p root) _ i e in
      found_ruleset-Chosen oa p r.1 r.0 i found (ok_same _ i eq) s

  stay_answer :
      (oparg : Option Octarr) (path : Option Name) (a : Answer) (i : Initial)
      → stay current oparg path a ≡ ok i
      → i.answer ≡ a
  unfolding stay
  stay_answer oparg path a i e = sym (ap (λ (j : Initial). j.answer) (ok_same _ i e))

  stay_rs :
      (oparg : Option Octarr) (path : Option Name) (a : Answer) (i : Initial)
      → stay current oparg path a ≡ ok i
      → i.rs ≡ some current
  unfolding stay
  stay_rs oparg path a i e = sym (ap (λ (j : Initial). j.rs) (ok_same _ i e))

  with_access-Allowed :
      (least : ℕ) (oa : Octarr) (path : Option Name) (i : Initial)
      → with_access access root current least oa path ≡ ok i
      → i.answer ≡ code success
      → Allowed oa path least i
  unfolding with_access
  with_access-Allowed least oa path i e s = elim (Bool-cases (ltb (length oa.arr) least)) [
    | inl few ↦
        let a : i.answer ≡ missing_arg = stay_answer (some oa) path missing_arg i (rw few at e) in
        cc
    | inr enough ↦ elim (Bool-cases (is_ok (access oa path))) [
      | inl granted ↦
          let (oparg, rs) = choose_ruleset-Chosen oa path i (rw (enough, granted) at e) s in
          (oparg, is_ok_success _ granted, ground (arith, enough), rs)
      | inr refused ↦
          let a : i.answer ≡ code (access oa path) =
            stay_answer (some oa) path (code (access oa path)) i (rw (enough, refused) at e) in
          absurd (not_granted (access oa path) refused (sym a ∙ s))
    ]
  ]

  abbrev pub Opened : Bool → ℕ → Octarr → Initial → Type 0
  Opened path least all i =
      (left : Octarr) × (p : Option Name) × Popped path all left p × Allowed left p least i

  -- What is left behind the test for a path.
  after_pop :
      (least : ℕ) (all : Octarr) (i : Initial) (b : Bool)
      → begins_path all.arr ≡ ok b
      → (if b
          then with_access access root current least
              (octarr_pop all).0
              (elim (octarr_pop all).1 [ none ↦ none | some s ↦ some (copied s) ])
          else with_access access root current least all none)
        ≡ ok i
      → i.answer ≡ code success
      → Opened true least all i
  after_pop least all i false begins e s =
      (all, none, inl (refl, refl), with_access-Allowed least all none i e s)
  after_pop least all i true begins e s =
      let (p, l, arr) = begins_path-true all.arr begins in
      let left : Octarr = record { size = all.size; arr = l } in
      (
        left,
        some (copied (b'/' ∷ p)),
        inr (refl, (p, l, arr, refl, refl)),
        with_access-Allowed least left (some (copied (b'/' ∷ p))) i
            (rw (octarr_pop_cons all (b'/' ∷ p) l arr) at e) s,
      )

  pop_path-Opened :
      (path : Bool) (least : ℕ) (all : Octarr) (i : Initial)
      → pop_path access root current path least all ≡ ok i
      → i.answer ≡ code success
      → Opened path least all i
  unfolding pop_path
  pop_path-Opened false least all i e s =
      (all, none, inl (refl, refl), with_access-Allowed least all none i e s)
  pop_path-Opened true least all i e s =
      let (b, begins, eq) = bind_ok (begins_path all.arr) _ i e in
      after_pop least all i b begins eq s

  -- Where `opinitial` succeeds: without arguments, if none is needed, the access is not asked for. With
  -- arguments, they are no more than the bound and one for a path; the first is taken off if it begins
  -- with a slash; the access is allowed with the others, which are as many as are needed, and the path;
  -- and the rule set is the given one, or the one that ruleset_find finds for the path.
  pub opinitial-Opened :
      (path : Bool) (least most : ℕ) (oparg : Option Octarr) (i : Initial)
      → opinitial access root current path least most oparg ≡ ok i
      → i.answer ≡ code success
      → (oparg ≡ none) × (least ≡ 0) × (i.rs ≡ some current)
        ⊎ ((all : Octarr) × (oparg ≡ some all) × Bounded path most all × Opened path least all i)
  unfolding opinitial
  opinitial-Opened path least most none i e s = elim (Bool-cases (least == 0)) [
    | inl z ↦ inl (refl, ground (arith, z), stay_rs none none (code success) i (rw z at e))
    | inr n ↦ let a : i.answer ≡ missing_arg = stay_answer none none missing_arg i (rw n at e) in cc
  ]
  opinitial-Opened path least most (some all) i e s =
      let over = not (most == 0) && ltb ((if path then 1 else 0) + most) (length all.arr) in
      elim (Bool-cases over) [
        | inl many ↦
            let a : i.answer ≡ param_error =
              stay_answer (some all) none param_error i (rw many at e) in
            cc
        | inr fits ↦ elim (Bool-cases (ltb (length all.arr) least)) [
          | inl few ↦
              let a : i.answer ≡ missing_arg =
                stay_answer (some all) none missing_arg i (rw (fits, few) at e) in
              cc
          | inr enough ↦ inr (
            all,
            refl,
            within most ((if path then 1 else 0)) (length all.arr) fits,
            pop_path-Opened path least all i (rw (fits, enough) at e) s,
          )
        ]
      ]
