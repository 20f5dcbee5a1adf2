-- ===== src/Requests/Names.antt =====
-- server/srv.c: the names of the operations.
use spocp.Prelude.{Bytes, codes, ◌≡◌}
use spocp.Requests.{
  Oper, starttls, rollback, subject, summary, bsearch, logout, delete, commit, tlsneg, query, login,
  begin, list, auth, capa, show, find, noop, add,
}

-- The name that the protocol gives an operation.
abbrev pub name_of : Oper → Bytes
name_of starttls = codes "STARTTLS"
name_of rollback = codes "ROLLBACK"
name_of subject = codes "SUBJECT"
name_of summary = codes "SUMMARY"
name_of bsearch = codes "BSEARCH"
name_of logout = codes "LOGOUT"
name_of delete = codes "DELETE"
name_of commit = codes "COMMIT"
name_of tlsneg = codes "TLSNEG"
name_of query = codes "QUERY"
name_of login = codes "LOGIN"
name_of begin = codes "BEGIN"
name_of list = codes "LIST"
name_of auth = codes "AUTH"
name_of capa = codes "CAPA"
name_of show = codes "SHOW"
name_of find = codes "FIND"
name_of noop = codes "NOOP"
name_of add = codes "ADD"

-- A name of the list stands by its routine.
abbrev Fits : Bytes × Oper → Type 0
Fits c = c.0 ≡ name_of c.1
