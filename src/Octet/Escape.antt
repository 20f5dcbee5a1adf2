-- ===== src/Octet/Escape.antt =====
-- lib/oct.c: `oct2strdup`, `oct2strcpy` and `oct_de_escape`. `char` is signed in the source, and its
-- tests give the same answers on the bytes 0 to 255 as the tests here.
pub mod RoundTrip
pub mod Copy
use spocp.Prelude.{
  ℕ, suc, ◌+◌, ◌-◌, ◌*◌, ◌/◌, ◌%◌, Bytes, List, [], ◌∷◌, ◌++◌, Option, none, some, Bool, true,
  false, not, ◌&&◌, ltb, leb, ◌==◌, if◌then◌else◌, length, take, drop, int_mod, is_negative, Result,
  ok, fault,
}

-- A byte that is copied as it is.
unfoldable pub is_plain : ℕ → Bool
is_plain c = leb 0x20 c && ltb c 0x7e && not (c == 0x25)

unfoldable pub hex_digit : ℕ → ℕ
hex_digit n = if ltb 9 n then n + 0x57 else n + 0x30

-- What one round of the copying loop writes.
unfoldable pub escape_byte : ℕ → ℕ → Bytes
unfolding is_plain hex_digit
escape_byte ec c =
    if ec == 0
    then c ∷ []
    else if is_plain c
    then c ∷ []
    else ec ∷ hex_digit (c / 16) ∷ hex_digit (c % 16) ∷ []

unfoldable pub escape : ℕ → Bytes → Bytes
unfolding escape_byte
escape ec [] = []
escape ec (c ∷ cp) = escape_byte ec c ++ escape ec cp

-- The size of the memory that `oct2strdup` allocates.
counted : Bytes → ℕ → ℕ
unfolding is_plain
counted [] n = n
counted (c ∷ cp) n = counted cp (if is_plain c then n + 1 else n + 4)

unfoldable pub strdup_size : Bytes → ℕ → ℕ
unfolding counted
strdup_size op ec = if ec == 0 then length op + 1 else counted op 1

-- The string before its 0, or none for a null pointer.
unfoldable pub oct2strdup : Option Bytes → ℕ → Option Bytes
unfolding escape
oct2strdup none ec = none
oct2strdup (some []) ec = none
oct2strdup (some (c ∷ op)) ec = some (escape ec (c ∷ op))

-- The loop of `oct2strcpy`: `room` is `end - sp`, and `out` what is written.
strcpy_loop : ℕ → ℕ → Bytes → Bytes → Option Bytes
unfolding is_plain hex_digit
strcpy_loop ec room [] out = if room == 0 then none else some out
strcpy_loop ec room (c ∷ cp) out =
    let plain = strcpy_loop ec (room - 1) cp (out ++ (c ∷ [])) in
    let hidden =
      strcpy_loop ec (room - 3) cp (out ++ (ec ∷ hex_digit (c / 16) ∷ hex_digit (c % 16) ∷ [])) in
    if room == 0 then none else if is_plain c then plain else if leb room 3 then none else hidden

-- The length returned and the string written, or none for -1.
unfoldable pub oct2strcpy : Bytes → ℕ → ℕ → Option (ℕ × Bytes)
unfolding strcpy_loop
oct2strcpy [] len ec = none
oct2strcpy (c ∷ cp) len ec =
    let op = c ∷ cp in
    if ltb len (length op + 1)
    then none
    else if ec == 0
    then some (length op, op)
    else elim (strcpy_loop ec len op []) [ none ↦ none | some s ↦ some (length op, s) ]

-- The byte `c` after the first hex digit, and after the second; other bytes leave it.
unfoldable pub high_digit : ℕ → ℕ → ℕ
high_digit c x =
    if leb b'a' x && leb x b'f'
    then (x - 0x57) * 16 % 256
    else if leb b'A' x && leb x b'F'
    then (x - 0x37) * 16 % 256
    else if leb b'0' x && leb x b'9'
    then (x - 0x30) * 16 % 256
    else c

unfoldable pub low_digit : ℕ → ℕ → ℕ
low_digit c x =
    if leb b'a' x && leb x b'f'
    then (c + (x - 0x57)) % 256
    else if leb b'A' x && leb x b'F'
    then (c + (x - 0x37)) % 256
    else if leb b'0' x && leb x b'9'
    then (c + (x - 0x30)) % 256
    else c

-- The loop of `oct_de_escape` over the bytes from `fp` on; `out` is what is written before `tp`.
-- It ends with the length counted, or none for -1.
de_escape_loop : ℕ → Bytes → ℕ → Bytes → ℕ → Option ℕ × Bytes
unfolding high_digit low_digit
de_escape_loop ec [] c out len = (some len, out)
de_escape_loop ec (x ∷ []) c out len = if x == ec then (none, out) else (some len, out ++ (x ∷ []))
de_escape_loop ec (x ∷ y ∷ []) c out len =
    let next = de_escape_loop ec (y ∷ []) c (out ++ (x ∷ [])) len in
    if x == ec then if y == ec then (some (len - 1), out ++ (y ∷ [])) else (none, out) else next
de_escape_loop ec (x ∷ y ∷ z ∷ fp) c out len =
    let next = de_escape_loop ec (y ∷ z ∷ fp) c (out ++ (x ∷ [])) len in
    let doubled = de_escape_loop ec (z ∷ fp) c (out ++ (y ∷ [])) (len - 1) in
    let c' = low_digit (high_digit c y) z in
    let coded = de_escape_loop ec fp c' (out ++ (c' ∷ [])) (len - 2) in
    if x == ec then if y == ec then doubled else coded else next

-- The array is rewritten from its start, and its length is set only where the loop ends.
write_back : Bytes → Option ℕ × Bytes → Option ℕ × Bytes
write_back op (none, out) = (none, out ++ drop (length out) op)
write_back op (some len, out) = (some len, take len (out ++ drop (length out) op))

-- The value returned, none for -1, and the octets behind the pointer. The length is kept in an `int`: the
-- loop runs over so many bytes, and with a negative one from the start away from the end, outside the text.
unfoldable pub oct_de_escape : Option Bytes → ℕ → Result (Option ℕ × Bytes)
unfolding de_escape_loop write_back
oct_de_escape none ec = ok (some 0, [])
oct_de_escape (some op) ec =
    let len = length op % int_mod in
    if is_negative len then fault else ok (write_back op (de_escape_loop ec (take len op) 0 [] len))
