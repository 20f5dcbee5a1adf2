-- ===== src/Tests/Conditions.antt =====
-- Concrete boundary conditions for the theorems on lib/bcond.c.
use spocp.Bcond.Added.{exp-inj, Entered, bcdef_add-Entered}
use spocp.Bcond.Boolean.{holds, verdict, Refers, Ordered, Quiet, Valued, Answered, bcexp_eval-holds}
use spocp.Bcond.Check.{Ruleinst, Checked, bcond_check}
use spocp.Bcond.Endless.{bcexp_eval-endless}
use spocp.Bcond.Ends.{parse_bcexp-Ends}
use spocp.Bcond.Eval.{Calls, exp_at, bcond_eval, bcexp_eval}
use spocp.Bcond.First.{satisfied, any_satisfied, bcond_check-any_satisfied}
use spocp.Bcond.Names.{Named, bcdef_add-Named}
use spocp.Bcond.Parse.{parse_bcexp, bcdef_add}
use spocp.Bcond.Store.{IsStore, exp_at-here, exp_at-later}
use spocp.Bcond.{
  Stree, null, atom, list, Bcexp, spec, and, not, ref, nil, cons, Bcdef, State, transv_stree,
}
use spocp.Octarr.{Octarr, octarr_add, octarr_join}
use spocp.Octet.Compare.{oct2strcmp, memcmp}
use spocp.Prelude.{
  ℕ, Bytes, List, [], ◌∷◌, none, some, Bool, true, ◌==◌, ==_iff, codes, Ends, left, ok, unfinished,
  success, denied, ◌≡◌, refl, subst, sym, ◌∙◌, ◌++◌, inl, inr, Bool-cases, arith,
}
use spocp.Sexp.{get_str, get_len}

-- The first plug-in says yes, the others no.
abbrev answer : ℕ → Bytes → Bool
answer plugin s = plugin == 0

abbrev two_plugins : Calls
two_plugins = record {
  element_eval = λ path. none;
  test = λ plugin xp arg. (verdict (plugin == 0), []);
}

abbrev day : Bcdef
day = record {
  address = 0;
  name = some (codes "day");
  exp = some (spec 0 (codes "p") (codes ":x"));
  users = [];
}

abbrev value : ℕ → Bool
value t = true

-- A statement on the only definition.
of_day :
    (P : ℕ → Bcexp → Type 0)
    → P 0 (spec 0 (codes "p") (codes ":x"))
    → (t : ℕ) (e : Bcexp) → exp_at (day ∷ []) t ≡ some e
    → P t e
of_day P h t e found = elim (Bool-cases (day.address == t)) [
  | inl here ↦
      subst (λ t. P t e) ((==_iff 0 t).0 here)
        (subst (P 0)
          (exp-inj (spec 0 (codes "p") (codes ":x")) e (sym (exp_at-here day [] t here) ∙ found)) h)
  | inr later ↦ absurd (nothing (sym (exp_at-later day [] t later) ∙ found))
]
  where
    nothing : exp_at [] t ≡ some e → ⊥
    nothing k = unfold exp_at in cc

-- The definition, and not the test of the second plug-in.
abbrev condition : Bcexp
condition = and (cons (ref 5 0) (cons (not (spec 1 (codes "q") (codes ":y"))) nil))

day-Ordered : Ordered (day ∷ [])
day-Ordered = of_day (λ t e. Refers (day ∷ []) t e) (unfold Refers in tt)

day-Quiet : Quiet two_plugins (day ∷ []) answer
day-Quiet = of_day (λ t e. Answered two_plugins answer e) (unfold Answered bcond_eval in refl)

day-Valued : Valued (day ∷ []) answer value
day-Valued = of_day (λ t e. value t ≡ holds answer value e) (unfold holds in refl)

condition-Refers : Refers (day ∷ []) 1 condition
unfolding Refers exp_at
condition-Refers = ((omega arith, (spec 0 (codes "p") (codes ":x"), refl)), (tt, tt))

condition-Answered : Answered two_plugins answer condition
unfolding Answered bcond_eval
condition-Answered = (tt, (refl, tt))

bcexp_eval-holds_example :
    bcexp_eval 1 two_plugins (day ∷ []) condition none
    ≡ ok (verdict (holds answer value condition), none)
bcexp_eval-holds_example =
    bcexp_eval-holds two_plugins (day ∷ []) answer value 1 condition day-Quiet day-Ordered
      day-Valued condition-Refers condition-Answered

abbrev rule : Ruleinst
rule = record { address = 7; blob = none; bcond = some 0 }

abbrev denied_before : Checked
denied_before = record { ri = 7; rc = denied; blob = none }

rule-Refers :
    (d : ℕ) → some 0 ≡ some d → (e : Bcexp) × (exp_at (day ∷ []) d ≡ some e) × Refers (day ∷ []) 1 e
rule-Refers d same =
    subst (λ d. (e : Bcexp) × (exp_at (day ∷ []) d ≡ some e) × Refers (day ∷ []) 1 e)
      (zero-inj same) (spec 0 (codes "p") (codes ":x"), unfold exp_at in refl, unfold Refers in tt)
  where
    zero-inj : some 0 ≡ some d → 0 ≡ d
    zero-inj e = cc

bcond_check-any_satisfied_example :
    (cr' : List Checked) × (bcond_check 1 two_plugins
        (day ∷ [])
        (rule ∷ [])
        none
        (denied_before ∷ [])
      ≡ ok (verdict (any_satisfied value (rule ∷ [])), none, cr'))
bcond_check-any_satisfied_example =
    bcond_check-any_satisfied 1 two_plugins (day ∷ []) answer value (λ a. true) (rule ∷ []) none
      (denied_before ∷ []) day-Quiet day-Ordered day-Valued
      (((refl, rule-Refers), unfold satisfied in refl), tt) ((refl, λ s. cc), tt)

-- A plug-in that returns a blob with every success.
abbrev with_blob : Calls
with_blob = record { element_eval = λ path. none; test = λ plugin xp arg. (success, codes "blob") }

abbrev blobs : Octarr
blobs = record { size = 4; arr = codes "blob" ∷ [] }

abbrev test : Bcexp
test = spec 0 (codes "p") (codes ":x")

first_blob : bcexp_eval 9 with_blob [] test none ≡ ok (success, some blobs)
unfolding bcexp_eval octarr_add octarr_join
first_blob = refl

second_blob :
    bcexp_eval 9 with_blob [] test (some blobs)
    ≡ ok (success, some (record { size = 4; arr = codes "blob" ∷ codes "blob" ∷ [] }))
unfolding bcexp_eval octarr_add octarr_join
second_blob = refl

some_blobs : blobs.arr ≡ [] → ⊥
some_blobs e = cc

bcexp_eval-endless_example :
    bcexp_eval 9 with_blob [] (and (cons test (cons test nil))) none ≡ unfinished
bcexp_eval-endless_example =
    bcexp_eval-endless 9 with_blob [] test test nil blobs none
      (some (record { size = 4; arr = codes "blob" ∷ codes "blob" ∷ [] })) (omega arith, some_blobs)
      first_blob second_blob

parse_bcexp-Ends_example : Ends left 11 (parse_bcexp (codes "(3:ref3:day"))
parse_bcexp-Ends_example = parse_bcexp-Ends (codes "(3:ref3:day")

abbrev start : State
start = record { defs = day ∷ []; free = 3 }

start-IsStore : IsStore start
start-IsStore = record {
  made = ((omega arith, (spec 0 (codes "p") (codes ":x"), refl)), tt);
  ordered = day-Ordered;
}

bcdef_add-Entered_example :
    Entered start (
      bcdef_add
        (λ s. s)
        (codes "p" ∷ [])
        (some (codes "night"))
        (codes "(3:not(3:ref3:day))")
        start)
bcdef_add-Entered_example =
    bcdef_add-Entered (λ s. s) (codes "p" ∷ []) (some (codes "night")) (codes "(3:not(3:ref3:day))")
      start start-IsStore

abbrev night : Stree
night = list (atom (codes "not") (list (atom (codes "ref") (atom (codes "day") null)) null)) null

parsed : parse_bcexp (codes "(3:not(3:ref3:day))") ≡ ok (night, [])
unfolding parse_bcexp get_str get_len oct2strcmp memcmp
parsed = refl

abbrev used : State
used = record {
  defs =
      record {
        address = 0;
        name = some (codes "day");
        exp = some (spec 0 (codes "p") (codes ":x"));
        users = 4 ∷ [];
      }
      ∷ [];
  free = 5;
}

translated :
    transv_stree (codes "p" ∷ []) night (record { defs = day ∷ []; free = 4 })
    ≡ ok (some (not (ref 4 0)), used)
unfolding transv_stree oct2strcmp memcmp
translated = refl

bcdef_add-Named_example :
    Named
      (codes "_")
      (not (ref 4 0))
      (bcdef_add (λ s. s ++ codes "_") (codes "p" ∷ []) none (codes "(3:not(3:ref3:day))") start)
bcdef_add-Named_example =
    bcdef_add-Named (λ s. s ++ codes "_") (codes "p" ∷ []) (codes "3:not(3:ref3:day))") night
      (not (ref 4 0)) start used parsed translated

-- `(and a b)` of two specifications is refused: the first has something next to it, so it is taken for
-- an operator.
two_specs_refused :
    bcdef_add (λ s. s) (codes "p" ∷ []) none (codes "(3:and4:p::x4:p::y)") start
    ≡ ok (none, record { defs = day ∷ []; free = 4 })
unfolding bcdef_add transv_stree parse_bcexp get_str get_len oct2strcmp memcmp
two_specs_refused = refl
