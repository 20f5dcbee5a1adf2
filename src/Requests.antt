-- ===== src/Requests.antt =====
-- server/srv.c: the operations that a client asks for, from the octets of a request to the arguments of a
-- routine and the rule set that it works on.
pub mod Names
pub mod Parsed
pub mod Initial
pub mod Opened
use spocp.Iobuf.{skip}
use spocp.Octarr.{Octarr, octarr_add, octarr_pop}
use spocp.Prelude.{
  ℕ, zero, suc, ◌+◌, Bytes, List, [], ◌∷◌, ◌++◌, codes, Option, none, some, Bool, true, false, not,
  ◌&&◌, ◌==◌, ltb, leb, if◌then◌else◌, length, same_bytes, Result, ok, err, fault, unfinished,
  ◌>>=◌, Code, success,
}
use spocp.Sexp.{Piece, piece, runaway, get_str}

-- The routines, by the names of the operations.
pub data Oper : Type 0 where
  starttls rollback subject summary bsearch logout delete commit tlsneg query login : Oper
  begin list auth capa show find noop add : Oper

-- What is returned instead of a routine, or by one: a code of the shared list, or one of its own.
pub data Answer : Type 0 where
  code : Code → Answer
  missing_arg param_error unknown_command state_violation unknown_ruleset : Answer

-- `strncasecmp` of the C library, over the whole of two names of one length.
unfoldable pub lower : ℕ → ℕ
lower c = if leb b'A' c && leb c b'Z' then c + 32 else c

unfoldable pub lower_all : Bytes → Bytes
lower_all [] = []
lower_all (c ∷ s) = lower c ∷ lower_all s

same_case : Bytes → Bytes → Bool
unfolding lower_all lower
same_case a b = same_bytes (lower_all a) (lower_all b)

-- The cases of the switch.
candidates : ℕ → List (Bytes × Oper)
candidates n =
    if n == 8
    then (codes "STARTTLS", starttls) ∷ (codes "ROLLBACK", rollback) ∷ []
    else if n == 7
    then (codes "SUBJECT", subject) ∷ (codes "SUMMARY", summary) ∷ (codes "BSEARCH", bsearch) ∷ []
    else if n == 6
    then (codes "LOGOUT", logout)
      ∷ (codes "DELETE", delete)
      ∷ (codes "COMMIT", commit)
      ∷ (codes "TLSNEG", tlsneg)
      ∷ []
    else if n == 5
    then (codes "QUERY", query) ∷ (codes "LOGIN", login) ∷ (codes "BEGIN", begin) ∷ []
    else if n == 4
    then (codes "LIST", list)
      ∷ (codes "AUTH", auth)
      ∷ (codes "CAPA", capa)
      ∷ (codes "SHOW", show)
      ∷ (codes "FIND", find)
      ∷ (codes "NOOP", noop)
      ∷ []
    else if n == 3
    then (codes "ADD", add) ∷ []
    else []

first_of : List (Bytes × Oper) → Bytes → Option Oper
first_of [] op = none
first_of ((name, o) ∷ l) op = if same_case op name then some o else first_of l op

unfoldable pub oper_of : Bytes → Option Oper
unfolding candidates first_of same_case
oper_of op = first_of (candidates (length op)) op

-- `l` behind the switch is not 0.
has_case : ℕ → Bool
has_case n = leb 3 n && leb n 8

-- The loop of `get_oparg`, with the code and the arguments so far.
oparg_loop : ℕ → Bytes → Option Octarr → Result (Code × Option Octarr)
oparg_loop zero arg oarr = unfinished
oparg_loop (suc fuel) [] oarr = ok (success, oarr)
oparg_loop (suc fuel) (c ∷ arg) oarr = elim (get_str (c ∷ arg)) [
  | ok p ↦ elim p.0 [
    | piece op ↦ octarr_add oarr op >>= λ o. oparg_loop fuel p.1 (some o)
    | runaway ↦ fault
  ]
  | err e ↦ ok (e, oarr)
  | fault ↦ fault
  | unfinished ↦ unfinished
]

-- A unit of fuel for each octet, and one more.
unfoldable pub get_oparg : Bytes → Option Octarr → Result (Code × Option Octarr)
unfolding oparg_loop
get_oparg arg oarr = oparg_loop (suc (length arg)) arg oarr

unfoldable pub is_auth : Oper → Bool
is_auth auth = true
is_auth _ = false

-- What `get_operation` does: the routine or an answer, the arguments, and the octets left in the buffer.
pub record Parsing : Type 0 where
  pub routine : Option Oper
  pub answer : Answer
  pub oparg : Option Octarr
  pub input : Bytes

refused : Answer → Option Octarr → Bytes → Result Parsing
refused a oparg input = ok (record { routine = none; answer = a; oparg = oparg; input = input })

-- Behind the arguments: the routine is there, and allowed while an authentication goes on.
chosen : Option Oper → Bool → Option Octarr → Bytes → Result Parsing
unfolding is_auth refused
chosen none in_auth oparg input = refused unknown_command oparg input
chosen (some o) in_auth oparg input =
    if in_auth && not (is_auth o)
    then refused state_violation oparg input
    else ok (record { routine = some o; answer = code success; oparg = oparg; input = input })

unfoldable pub is_ok : Code → Bool
is_ok success = true
is_ok _ = false

-- Behind the name of the operation, `oa`.
with_name : Bytes → Bytes → Bool → Option Octarr → Bytes → Bytes → Result Parsing
unfolding get_oparg has_case chosen is_ok refused
with_name op oa in_auth oparg input after =
    let left = if has_case (length op) then skip after else input in
    get_oparg oa oparg >>= λ r.
    if is_ok r.0 then chosen (oper_of op) in_auth r.1 left else refused (code r.0) none left

in_whole : Bytes → Bool → Option Octarr → Bytes → Bytes → Result Parsing
unfolding with_name refused
in_whole wo in_auth oparg input after = elim (get_str wo) [
  | ok p ↦ elim p.0 [ piece op ↦ with_name op p.1 in_auth oparg input after | runaway ↦ fault ]
  | err e ↦ refused (code e) oparg input
  | fault ↦ fault
  | unfinished ↦ unfinished
]

-- The octets of the buffer, whether an authentication goes on, and `wi->oparg`.
unfoldable pub get_operation : Bytes → Bool → Option Octarr → Result Parsing
unfolding in_whole refused
get_operation input in_auth oparg = elim (get_str input) [
  | ok p ↦ elim p.0 [ piece wo ↦ in_whole wo in_auth oparg input p.1 | runaway ↦ fault ]
  | err e ↦ refused (code e) oparg input
  | fault ↦ fault
  | unfinished ↦ unfinished
]
