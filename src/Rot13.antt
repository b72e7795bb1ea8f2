-- ===== src/Rot13.antt =====
-- `rot13_char`, of which chap-22, chap-25 and chap-26 have a copy each. A `char` is a byte; those
-- above 127, which a signed `char` holds as negative numbers, are in none of the ranges either way.
pub mod Laws
use yolanda.Prelude.{◌+◌, ◌-◌, ◌&&◌, if◌then◌else◌, ℕ, leb, ◌||◌}

unfoldable pub rot13_char : ℕ → ℕ
rot13_char c =
    if (leb b'a' c && leb c b'm') || (leb b'A' c && leb c b'M')
    then c + 13
    else if (leb b'n' c && leb c b'z') || (leb b'N' c && leb c b'Z')
    then c - 13
    else c
