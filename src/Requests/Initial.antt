-- ===== src/Requests/Initial.antt =====
-- server/srv.c, `opinitial`: the number of the arguments, the path among them, the access and the rule set.
use spocp.Octarr.{Octarr, octarr_pop}
use spocp.Prelude.{
  ℕ, ◌+◌, Bytes, List, [], ◌∷◌, ◌++◌, Option, none, some, Bool, true, false, not, ◌&&◌, ◌==◌, ltb,
  if◌then◌else◌, length, Result, ok, fault, ◌>>=◌, Code, success,
}
use spocp.Requests.{Answer, code, missing_arg, param_error, unknown_ruleset, is_ok}
use spocp.Rulesets.Find.{Name, ruleset_find}
use spocp.Rulesets.{Level, Node}

-- `*(oparg->arr[0]->val) == '/'`: an argument has a byte at least.
unfoldable pub begins_path : List Bytes → Result Bool
begins_path [] = fault
begins_path ([] ∷ l) = fault
begins_path ((c ∷ s) ∷ l) = ok (c == b'/')

-- What `opinitial` returns, the arguments, the path, and the rule set, none where it is set to null. A
-- path is a copy that ends with a 0.
pub record Initial : Type 0 where
  pub answer : Answer
  pub oparg : Option Octarr
  pub oppath : Option Name
  pub rs : Option Node

-- The octets of a copy.
unfoldable pub copied : Bytes → Name
copied s = record { len = length s; val = s ++ (0 ∷ []) }

unfoldable pub found_ruleset : Octarr → Option Node → Name → Initial
found_ruleset oa none q = record {
  answer = unknown_ruleset;
  oparg = some oa;
  oppath = some q;
  rs = none;
}
found_ruleset oa (some n) q = record {
  answer = code success;
  oparg = some oa;
  oppath = some q;
  rs = some n;
}

unfoldable pub find_ruleset : Level → Octarr → Name → Result Initial
unfolding found_ruleset
find_ruleset root oa path = ruleset_find path root >>= λ r. ok (found_ruleset oa r.0 r.1)

-- An answer without another rule set.
unfoldable pub stay : Node → Option Octarr → Option Name → Answer → Result Initial
stay current oparg path a =
    ok (record { answer = a; oparg = oparg; oppath = path; rs = some current })

-- With the access.
unfoldable pub choose_ruleset : Level → Node → Octarr → Option Name → Result Initial
unfolding find_ruleset stay
choose_ruleset root current oa none = stay current (some oa) none (code success)
choose_ruleset root current oa (some p) = find_ruleset root oa p

-- Behind the path: `operation_access` of server/saci.c is the argument `access`.
unfoldable pub with_access :
    (Octarr → Option Name → Code) → Level → Node → ℕ → Octarr → Option Name → Result Initial
unfolding choose_ruleset is_ok stay
with_access access root current least oa path =
    if ltb (length oa.arr) least
    then stay current (some oa) path missing_arg
    else if is_ok (access oa path)
    then choose_ruleset root current oa path
    else stay current (some oa) path (code (access oa path))

-- The first argument is popped if it is a path.
unfoldable pub pop_path :
    (Octarr → Option Name → Code) → Level → Node → Bool → ℕ → Octarr → Result Initial
unfolding with_access begins_path copied octarr_pop
pop_path access root current false least oa = with_access access root current least oa none
pop_path access root current true least oa = begins_path oa.arr >>= λ b.
    let (rest, first) = octarr_pop oa in
    if b
    then with_access access root current least rest
        (elim first [ none ↦ none | some s ↦ some (copied s) ])
    else with_access access root current least oa none

-- `path` is 0 or 1, and a `most` of 0 is no bound.
unfoldable pub opinitial :
    (Octarr → Option Name → Code) → Level → Node → Bool → ℕ → ℕ → Option Octarr → Result Initial
unfolding pop_path stay
opinitial access root current path least most oparg = elim oparg [
  | none ↦ stay current none none (if least == 0 then code success else missing_arg)
  | some oa ↦
      if not (most == 0) && ltb ((if path then 1 else 0) + most) (length oa.arr)
      then stay current (some oa) none param_error
      else if ltb (length oa.arr) least
      then stay current (some oa) none missing_arg
      else pop_path access root current path least oa
]
