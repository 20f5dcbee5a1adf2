-- ===== src/Compare/Below.antt =====
-- server/cmp.c: on queries of strings and lists, `elementcmp` is the relation <= of doc/intro.html.
use spocp.Compare.Answers.{Answers, Answers_or, Answers_and}
use spocp.Compare.Texts.{Within, IsText, range_answers}
use spocp.Compare.{elementcmp, element2setcmp, listcmp, atomcmp, atom2prefixcmp}
use spocp.Element.{Element, Elements, atom, list, set, prefix, range, nil, cons}
use spocp.Octet.Compare.{octcmp}
use spocp.Compare.Covers.{octcmp_zero, prefix_zero}
use spocp.Prelude.{
  ◌≤◌, Bytes, ◌++◌, some, length, take, drop, take-append, take-append-drop, length-append, int_max,
  ok, ◌≡◌, refl, sym, ap, ◌∙◌, ◌⊎◌, inl, inr, arith,
}
use spocp.Range.{Libc}

-- S <= T: equal strings; a string that begins with the prefix; a string in the range, in the
-- lexicographic order; lists, the second no longer than the first, that are so one by one; and a member of
-- a set that the first is <= of.
abbrev mutual
  pub Below : Element → Element → Type 0
  Below (atom a) (atom b) = a ≡ b
  Below (atom a) (prefix b) = (rest : Bytes) × (a ≡ b ++ rest)
  Below (atom a) (range r) = Within a r
  Below (list la) (list lb) = EachBelow la lb
  Below a (set es) = AnyBelow a es
  Below a b = ⊥

  pub AnyBelow : Element → Elements → Type 0
  AnyBelow a nil = ⊥
  AnyBelow a (cons e es) = Below a e ⊎ AnyBelow a es

  pub EachBelow : Elements → Elements → Type 0
  EachBelow la nil = Unit
  EachBelow nil (cons b lb) = ⊥
  EachBelow (cons a la) (cons b lb) = Below a b × EachBelow la lb

-- A query is a string of at most `INT_MAX` bytes or a list of queries.
abbrev mutual
  pub IsQuery : Element → Type 0
  IsQuery (atom a) = length a ≤ int_max
  IsQuery (list es) = AreQueries es
  IsQuery _ = ⊥

  pub AreQueries : Elements → Type 0
  AreQueries nil = Unit
  AreQueries (cons e es) = IsQuery e × AreQueries es

-- A rule here: a string, a prefix, a range of strings, a set of one or more of these, or a list of rules.
abbrev pub IsFlat : Element → Type 0
IsFlat (atom a) = length a ≤ int_max
IsFlat (prefix a) = Unit
IsFlat (range r) = IsText r
IsFlat _ = ⊥

abbrev pub AreFlat : Elements → Type 0
AreFlat nil = Unit
AreFlat (cons e es) = IsFlat e × AreFlat es

abbrev mutual
  pub IsRule : Element → Type 0
  IsRule (set nil) = ⊥
  IsRule (set (cons e es)) = AreFlat (cons e es)
  IsRule (list es) = AreRules es
  IsRule a = IsFlat a

  pub AreRules : Elements → Type 0
  AreRules nil = Unit
  AreRules (cons e es) = IsRule e × AreRules es

prefix_answers :
    (a b : Bytes) → Answers (ok (atom2prefixcmp a b)) ((rest : Bytes) × (a ≡ b ++ rest))
prefix_answers a b =
    let iff = prefix_zero a b in
    (
      atom2prefixcmp a b,
      refl,
      (
        λ z. (
          drop (length b) a,
          sym (take-append-drop (length b) a) ∙ ap (λ l. l ++ drop (length b) a) (iff.0 z).1,
        ),
        λ x. iff.1 (
          omega (arith, ap length x.1, length-append b x.0),
          ap (take (length b)) x.1 ∙ take-append b x.0,
        ),
      ),
    )

module _ (libc : Libc) where
  flat_answers :
      (a : Bytes) (b : Element)
      → length a ≤ int_max
      → IsFlat b
      → Answers (elementcmp libc (atom a) b) (Below (atom a) b)
  unfolding elementcmp atomcmp
  flat_answers a (atom b) h k = (octcmp (some a) (some b), refl, octcmp_zero a b h k)
  flat_answers a (prefix b) h k = prefix_answers a b
  flat_answers a (range r) h k = range_answers libc a r h k
  flat_answers a b h k = absurd k

  list_flat :
      (la : Elements) (b : Element)
      → IsFlat b
      → Answers (elementcmp libc (list la) b) (Below (list la) b)
  unfolding elementcmp
  list_flat la (atom b) k = (1, refl, (λ z. absurd (omega (arith, z)), λ x. absurd x))
  list_flat la (prefix b) k = (1, refl, (λ z. absurd (omega (arith, z)), λ x. absurd x))
  list_flat la (range b) k = (1, refl, (λ z. absurd (omega (arith, z)), λ x. absurd x))
  list_flat la b k = absurd k

  set_answers :
      (a : Bytes) (es : Elements)
      → length a ≤ int_max
      → AreFlat es
      → Answers (element2setcmp libc (atom a) es) (AnyBelow (atom a) es)
  unfolding element2setcmp
  set_answers a nil h k = (1, refl, (λ z. absurd (omega (arith, z)), λ x. absurd x))
  set_answers a (cons e es) h k =
      Answers_or _ _ _ _ (flat_answers a e h k.0) (set_answers a es h k.1)

  no_list : (la es : Elements) → AreFlat es → AnyBelow (list la) es → ⊥
  no_list la nil k x = x
  no_list la (cons (atom b) es) k (inl x) = x
  no_list la (cons (prefix b) es) k (inl x) = x
  no_list la (cons (range b) es) k (inl x) = x
  no_list la (cons e es) k (inl x) = absurd k.0
  no_list la (cons e es) k (inr x) = no_list la es k.1 x

  mutual
    unfolding elementcmp

    elementcmp_answers :
        (a b : Element) → IsQuery a → IsRule b → Answers (elementcmp libc a b) (Below a b)
    elementcmp_answers (atom a) (atom b) h k = flat_answers a (atom b) h k
    elementcmp_answers (atom a) (prefix b) h k = flat_answers a (prefix b) h k
    elementcmp_answers (atom a) (range b) h k = flat_answers a (range b) h k
    elementcmp_answers (atom a) (list lb) h k =
        (1, refl, (λ z. absurd (omega (arith, z)), λ x. absurd x))
    elementcmp_answers (atom a) (set nil) h k = absurd k
    elementcmp_answers (atom a) (set (cons e es)) h k = set_answers a (cons e es) h k
    elementcmp_answers (list la) (list lb) h k = listcmp_answers la lb h k
    elementcmp_answers (list la) (set nil) h k = absurd k
    elementcmp_answers (list la) (set (cons e es)) h k =
        (1, refl, (λ z. absurd (omega (arith, z)), λ x. absurd (no_list la (cons e es) k x)))
    elementcmp_answers (list la) (atom b) h k = list_flat la (atom b) k
    elementcmp_answers (list la) (prefix b) h k = list_flat la (prefix b) k
    elementcmp_answers (list la) (range b) h k = list_flat la (range b) k
    elementcmp_answers (list la) b h k = absurd k
    elementcmp_answers (atom a) b h k = absurd k
    elementcmp_answers a b h k = absurd h

    listcmp_answers :
        (la lb : Elements)
        → AreQueries la
        → AreRules lb
        → Answers (listcmp libc la lb) (EachBelow la lb)
    listcmp_answers la nil h k = (0, refl, (λ _. tt, λ _. refl))
    listcmp_answers nil (cons b lb) h k = (1, refl, (λ z. absurd (omega (arith, z)), λ x. absurd x))
    listcmp_answers (cons a la) (cons b lb) (h, hs) (k, ks) =
        Answers_and _ _ _ _ (elementcmp_answers a b h k) (listcmp_answers la lb hs ks)

  -- On a query of strings of at most `INT_MAX` bytes and lists, and a rule of such strings, prefixes, ranges
  -- of strings, sets of one or more of these, and lists of rules, `elementcmp` returns, and returns 0 exactly
  -- if the query is <= the rule: equal strings; a string that begins with the prefix; a string in the range,
  -- in the lexicographic order; lists, the second no longer than the first, one by one; a member of the set.
  pub elementcmp-Below :
      (a b : Element) → IsQuery a → IsRule b → Answers (elementcmp libc a b) (Below a b)
  elementcmp-Below a b h k = elementcmp_answers a b h k
