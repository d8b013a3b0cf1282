-- ===== src/Http/Parser/Chars.antt =====
-- The character classes of src/KernelHttpLib/http/HttpParser.cpp and the searches over them.
use win_kernel_http.Common.{
  ℕ, [], ◌∷◌, ◌+◌, ◌-◌, Bool, true, false, not, ◌&&◌, ◌||◌, ltb, leb, ◌==◌, if◌then◌else◌, length,
}
use win_kernel_http.Common.Buffer.{Bytes}

abbrev pub is_digit : ℕ → Bool
is_digit value = leb b'0' value && leb value b'9'

abbrev pub is_hex_digit : ℕ → Bool
is_hex_digit value =
    (leb b'0' value && leb value b'9')
    || (leb b'a' value && leb value b'f')
    || (leb b'A' value && leb value b'F')

-- `HexValue` of a hexadecimal digit.
abbrev pub hex_value : ℕ → ℕ
hex_value value =
    if leb b'0' value && leb value b'9'
    then value - b'0'
    else if leb b'a' value && leb value b'f'
    then 10 + value - b'a'
    else 10 + value - b'A'

abbrev pub is_tchar : ℕ → Bool
is_tchar value =
    (leb b'0' value && leb value b'9')
    || (leb b'A' value && leb value b'Z')
    || (leb b'a' value && leb value b'z')
    || value == b'!'
    || value == b'#'
    || value == b'$'
    || value == b'%'
    || value == b'&'
    || value == b'\''
    || value == b'*'
    || value == b'+'
    || value == b'-'
    || value == b'.'
    || value == b'^'
    || value == b'_'
    || value == b'`'
    || value == b'|'
    || value == b'~'

abbrev pub is_quoted_pair_text : ℕ → Bool
is_quoted_pair_text value = value == b'\t' || (leb 32 value && leb value 126)

-- The loop of `ContainsChar`.
abbrev pub contains_char : Bytes → ℕ → Bool
contains_char [] needle = false
contains_char (c ∷ text) needle = if c == needle then true else contains_char text needle

-- The loops that test every character.
abbrev pub all_tchar : Bytes → Bool
all_tchar [] = true
all_tchar (c ∷ text) = if not (is_tchar c) then false else all_tchar text

-- `IsValidHeaderName` and `IsValidToken`, which are the same.
abbrev pub is_valid_header_name : Bytes → Bool
is_valid_header_name text = if length text == 0 then false else all_tchar text

abbrev pub is_valid_header_value : Bytes → Bool
is_valid_header_value [] = true
is_valid_header_value (c ∷ text) =
    if not (c == b'\t') && (ltb c 32 || c == 127) then false else is_valid_header_value text

-- What stands in front of the first such character, and what from it on.
abbrev pub until_char : ℕ → Bytes → Bytes
until_char needle [] = []
until_char needle (c ∷ text) = if c == needle then [] else c ∷ until_char needle text

abbrev pub from_char : ℕ → Bytes → Bytes
from_char needle [] = []
from_char needle (c ∷ text) = if c == needle then c ∷ text else from_char needle text

-- `while (cursor < length && IsTchar(data[cursor])) ++cursor;`
abbrev pub skip_tchars : Bytes → Bytes
skip_tchars [] = []
skip_tchars (c ∷ text) = if is_tchar c then skip_tchars text else c ∷ text
