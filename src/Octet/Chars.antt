-- ===== src/Octet/Chars.antt =====
-- include/proto.h: the characters that may stand in a path.
use spocp.Prelude.{ℕ, Bool, not, ◌&&◌, ◌||◌, ◌==◌, leb}

unfoldable pub is_schar : ℕ → Bool
is_schar c = c == b'"' || c == b'%' || c == b'|' || c == b'(' || c == b')' || c == b'/'

unfoldable pub is_vchar : ℕ → Bool
unfolding is_schar
is_vchar c = leb b'!' c && leb c b'~' && not (is_schar c)

unfoldable pub is_dirchar : ℕ → Bool
unfolding is_vchar
is_dirchar c = is_vchar c || c == b'/'
