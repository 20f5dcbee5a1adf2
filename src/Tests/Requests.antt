-- ===== src/Tests/Requests.antt =====
-- Concrete requests for the theorems on server/srv.c.
use spocp.Octarr.{Octarr, octarr_pop}
use spocp.Prelude.{
  ℕ, [], ◌∷◌, ◌++◌, codes, Option, none, some, true, ok, Code, success, ◌≡◌, refl, ◌⊎◌,
}
use spocp.Requests.Initial.{Initial, opinitial}
use spocp.Requests.Opened.{Bounded, Opened, opinitial-Opened}
use spocp.Requests.{code}
use spocp.Rulesets.Find.{Name, ruleset_find, beginning_of}
use spocp.Rulesets.{Level, Node, null, level, end}

abbrev root : Level
root = level end (record { self = 1; name = [] }) null end

abbrev here : Node
here = (record { self = 2; name = codes "here" }, null)

-- Anyone may do anything.
abbrev anyone : Octarr → Option Name → Code
anyone oa path = success

abbrev asked : Octarr
asked = record { size = 4; arr = codes "/" ∷ codes "(1:a)" ∷ [] }

abbrev opened : Initial
opened = record {
  answer = code success;
  oparg = some (record { size = 4; arr = codes "(1:a)" ∷ [] });
  oppath = some (record { len = 1; val = codes "/" ++ (0 ∷ []) });
  rs = some (record { self = 1; name = [] }, null);
}

initial_root : opinitial anyone root here true 1 3 (some asked) ≡ ok opened
unfolding opinitial octarr_pop ruleset_find beginning_of
initial_root = refl

opinitial-Opened_example :
    (some asked ≡ none) × (◌≡◌ {A = ℕ} 1 0) × (opened.rs ≡ some here)
    ⊎ ((all : Octarr) × (some asked ≡ some all)
        × Bounded true 3 all
        × Opened anyone root here true 1 all opened)
opinitial-Opened_example =
    opinitial-Opened anyone root here true 1 3 (some asked) opened initial_root refl
