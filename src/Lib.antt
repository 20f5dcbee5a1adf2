-- ===== src/Lib.antt =====
-- SPOCP, the authorization server of fredrikt/SPOCP: a verification library of its core.
--
-- A rule and a query of SPOCP are canonical s-expressions. lib/oct.c has the octet strings that
-- everything else is made of; lib/sexp.c takes the tokens of an s-expression off a text;
-- lib/verify.c checks the values that may stand in a range; lib/input.c parses a text into a tree of
-- elements, which lib/element.c prints; server/cmp.c tells whether one element covers another; and
-- lib/varr.c and lib/octarr.c have the growing arrays of the members of a set and of octet strings.
-- The prefixes and suffixes of the rules are kept in the trees of lib/ssn.c; a rule that matches may ask
-- for a boundary condition, which lib/bcond.c reads and evaluates; and server/iobuf.c has the buffers
-- through which a connection is read and answered, and server/pool.c the pools of its work items. The
-- rules stand in the rule sets of server/ruleset.c, which are found by their paths; a request names an
-- operation of server/srv.c and a rule set, and the operations of a transaction are collected in the list
-- of server/opstack.c. Answers leave in the order of the requests through server/reply.c. What a match
-- has found is kept in the arrays and lists of lib/index.c and lib/resset.c.
--
-- - Prelude: tests and lists over the native numbers, C integers as numbers below a power of 2
--   (Word), the results of fallible code (Outcome: `ok`, an error code, `fault` for a read outside an
--   object, `unfinished` for fuel that has run out), and sizes of results (Bounded).
-- - Octet: lib/oct.c. An `octet_t` is the list of its `len` bytes, and a null pointer `none`.
--   Chars has the characters of paths. Compare (octcmp, octncmp, oct2strcmp, oct2strncmp), Search
--   (oct_find_balancing, octchr, octpbrk, octstr), Escape (oct2strdup, oct2strcpy, oct_de_escape),
--   Number (octtoi).
-- - Sexp: lib/sexp.c, `get_len`, `get_str` and `sexp_len`. A function that advances an octet string
--   returns what is left. Decimal, Token and Canon describe canonical texts; Framed is on `get_str` and
--   Frame on `sexp_len`.
-- - Verify: lib/verify.c, with `hms2int` and `to_gmt` of lib/input.c.
-- - Range: the ranges of lib/input.c, from `set_delimiter` to `do_range`. The functions of the C
--   library that it calls on addresses and dates are the parameter `Libc`.
-- - Element: `element_get` of lib/input.c with its lists and sets, and `element_print` of
--   lib/element.c (Print). Steps has their branches, Ends is on termination, Text, Reads and
--   RoundTrip are on reading what was printed, and Loss is on texts that are accepted and not kept.
-- - Compare: server/cmp.c, `elementcmp`. Below is on the relation of doc/intro.html, with Answers
--   on results and Texts on ranges of strings; Covers is on what the code decides, Ranges on atoms in
--   ranges.
-- - Varr: lib/varr.c. Grow is on adding and popping, Members on finding, Sets on unions,
--   intersections and removal, and Dups on `varr_rm_dup`.
-- - Octarr: lib/octarr.c. Laws is on adding, joining and removing.
-- - Ssn: lib/ssn.c. A tree is an inductive type, a junction its address. Lookup is on `ssn_match`, Steps
--   has the ways through a node, Insert, Inner and Refine are on `ssn_insert` (the tree as a map from
--   strings to junctions), Follow is on `ssn_lte_match`, and Delete on `ssn_delete`.
-- - Bcond: the expressions and the list of definitions of lib/bcond.c, with addresses for pointers, and
--   `transv_stree`. Parse has `parse_bcexp`, `bcdef_add` and `bcdef_get`, Eval `bcexp_eval` with
--   `element_eval` and the test of a plug-in as arguments (`Calls`), Check lib/check.c and
--   `bcond_check`. Ends is on the parser, Store and Added on the list of definitions, Names on the names
--   that are made, Boolean and Endless on `bcexp_eval`, and First on `bcond_check`.
-- - Iobuf: server/iobuf.c. A buffer is the bytes up to `w`, with `r` and `p` as offsets. Grow is on
--   writing, Queue on the bytes that were not read, Tag on the lengths that are put before answers.
-- - Pool: server/pool.c. An item is an address, and the links of all items are a function from addresses.
--   Chain is on items linked both ways, Links on adding, Remove and Move on taking out and on
--   `item_return`, and Pop on popping and counting.
-- - Rulesets: server/ruleset.c. A level is seen from the rule set that is pointed to, with those to its left
--   and right nearest first; a pointer up is left out, and a call is given the root's level. Path has
--   `path_split`, Find `ruleset_find` and `ruleset_create`, Names `ruleset_name` and `pathname_get`. Order
--   is on names and levels in order, Levels on `one_level`, Changes and Writes on what adding and
--   writing change, Created on the loop of `ruleset_create` as a set of paths, Branches and RoundTrip on
--   finding what was made, Parts, Printed and Named on paths as text.
-- - Indexes and Ressets: lib/index.c and lib/resset.c, arrays of the rule instances that a match has found,
--   and lists of results. Extended, Common and Removed are on unions, intersections and removal, Sets is on
--   results as sets.
-- - Requests: server/srv.c. A request is the octets of the buffer; Parsed is on `get_operation`, Names on the
--   names of the operations, and Initial has `opinitial`, with `operation_access` of server/saci.c as an
--   argument, on which Opened is.
-- - Transactions: `com_begin`, `com_commit`, `com_rollback` and `com_logout` of server/srv.c, and
--   server/opstack.c. What an operation does to the rules is an argument (`Database`). Stack is on COMMIT,
--   Locked on BEGIN.
-- - Replies: server/reply.c. A place in the list is a record with the address of the work item that it
--   waits for, or the buffer with its answer. Ordered is on the order of the answers where calls do not overlap,
--   Raced on what may come between the steps of `reply_add`.
-- - Tests: the theorems at concrete inputs.
--
-- The mutual recursion of lib/input.c runs on fuel: `element_get` gives four units for each octet and
-- four more, and three for each octet and one are enough. The loop of `sexp_len` has one unit for each
-- octet, and `varr_rm_dup` one for each pointer and one more; the loops of lib/oct.c have what their
-- text is long. `parse_bcexp` has two units for each octet and two more, the loop over the paths of a
-- condition one for each octet and one more; `bcexp_eval` follows as many references as its fuel, and
-- the address behind the definitions it refers to is enough; `pool_size` has one unit for each item,
-- and `get_oparg` one for each octet of the arguments and one more.
-- Numbers of 32 and 64 bits wrap around as the code's do; the sizes of arrays, the depth that `sexp_len`
-- counts and the length of a path do not.
--
-- Not modelled: memory that is short, logging, locks and threads (but for a call between the two steps of
-- `reply_add`), the hash of an atom, the links from an
-- element to its parent, the trace string of `elementcmp`, IPv6 (the parser tests for it under a macro
-- that the build does not define), the functions of lib/oct.c that allocate and copy, the printing of
-- s-expressions from a format in lib/sexp.c, `oct_split`, the persistent store, removing and replacing
-- boundary conditions, and the rest of the repository: the rule tree and its matching, the sockets
-- and threads of the server, the routines of its other operations, the listing of its rule sets, its
-- backends and clients.
pub mod Prelude
pub mod Octet
pub mod Rulesets
pub mod Indexes
pub mod Ressets
pub mod Replies
pub mod Requests
pub mod Transactions
pub mod Sexp
pub mod Verify
pub mod Range
pub mod Element
pub mod Varr
pub mod Octarr
pub mod Compare
pub mod Ssn
pub mod Bcond
pub mod Iobuf
pub mod Pool
pub mod Tests
