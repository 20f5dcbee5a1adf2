-- ===== src/Requests/Parsed.antt =====
-- server/srv.c: `get_operation` of a request as a client writes it.
use spocp.Octarr.Laws.{IsOctarr}
use spocp.Octarr.{Octarr}
use spocp.Prelude.{Bytes, List, [], ◌∷◌, ◌++◌, Option, none, some, Result, ok, Code, success, ◌≡◌}
use spocp.Rulesets.Find.{parts_of}
use spocp.Sexp.Token.{canonical}

-- The arguments of a request, one behind the other.
abbrev pub flat : List Bytes → Bytes
flat [] = []
flat (s ∷ ss) = canonical s ++ flat ss

abbrev IsArray : Option Octarr → Type 0
IsArray none = Unit
IsArray (some oa) = IsOctarr oa

-- The array with one element more, or a new one.
abbrev Grown : Option Octarr → Bytes → Result Octarr → Type 0
Grown o s r = (oa : Octarr) × (r ≡ ok oa) × IsOctarr oa × (oa.arr ≡ parts_of o ++ (s ∷ []))

-- The arguments behind those that are there.
abbrev Reads : List Bytes → Option Octarr → Result (Code × Option Octarr) → Type 0
Reads ss o r = (o' : Option Octarr) × (r ≡ ok (success, o')) × (parts_of o' ≡ parts_of o ++ ss)

-- The text of a request: the name of the operation and the arguments, with the length of all before them.
abbrev pub request : Bytes → List Bytes → Bytes
request op ss = canonical op ++ flat ss
