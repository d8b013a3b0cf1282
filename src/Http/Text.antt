-- ===== src/Http/Text.antt =====
-- HttpText and its comparisons: src/KernelHttpLib/http/HttpTypes.cpp. A text is a buffer of
-- characters, given by their codes; a `char` above 127 is negative in the source, and so is
-- outside every range that the code tests.
use win_kernel_http.Common.{
  ℕ, zero, suc, List, [], ◌∷◌, ◌+◌, Bool, true, false, not, ◌&&◌, ◌||◌, ltb, leb, ◌==◌,
  if◌then◌else◌, length, take,
}
use win_kernel_http.Common.Buffer.{Bytes, Buffer, null, bytes, buffer_length, byte_at}
pub mod Elements
pub mod Trim
pub mod Tokens
mod Examples

abbrev pub is_upper_ascii : ℕ → Bool
is_upper_ascii value = leb b'A' value && leb value b'Z'

abbrev pub to_lower_ascii : ℕ → ℕ
to_lower_ascii value = if is_upper_ascii value then value + 32 else value

abbrev pub is_whitespace : ℕ → Bool
is_whitespace value = value == b' ' || value == b'\t'

abbrev pub is_token_boundary : ℕ → Bool
is_token_boundary value = value == b',' || value == b' ' || value == b'\t'

-- `MakeText` of a pointer to characters with a NUL among them: the ones in front of it.
abbrev pub until_nul : Bytes → Bytes
until_nul [] = []
until_nul (c ∷ text) = if c == 0 then [] else c ∷ until_nul text

abbrev pub make_text : Buffer → Buffer
make_text (null n) = null 0
make_text (bytes text) = bytes (until_nul text)

-- The first loop of `TrimOptionalWhitespace`.
unfoldable pub trim_front : Bytes → Bytes
trim_front [] = []
trim_front (c ∷ text) = if is_whitespace c then trim_front text else c ∷ text

-- The second loop, on `text.Length`.
unfoldable pub trimmed_length : Bytes → ℕ → ℕ
trimmed_length text zero = 0
trimmed_length text (suc n) =
    if is_whitespace (byte_at text n) then trimmed_length text n else suc n

unfoldable pub trim : Bytes → Bytes
trim text = let rest = trim_front text in take (trimmed_length rest (length rest)) rest

-- `TrimOptionalWhitespace`; a null text is empty.
abbrev pub trim_optional_whitespace : Buffer → Buffer
trim_optional_whitespace (null n) = null n
trim_optional_whitespace (bytes text) = bytes (trim text)

-- The loop of `TextEqualsIgnoreCase` on two texts of one length.
unfoldable pub same_ignore_case : Bytes → Bytes → Bool
same_ignore_case [] [] = true
same_ignore_case (a ∷ left) (b ∷ right) =
    if to_lower_ascii a == to_lower_ascii b then same_ignore_case left right else false
same_ignore_case _ _ = false

unfoldable pub text_equals_ignore_case : Buffer → Buffer → Bool
text_equals_ignore_case (bytes left) (bytes right) =
    if length left == length right then same_ignore_case left right else false
text_equals_ignore_case _ _ = false

-- The inner loops of the token scans: what stands before the next comma, and what from it on.
unfoldable pub until_comma : Bytes → Bytes
until_comma [] = []
until_comma (c ∷ text) = if c == b',' then [] else c ∷ until_comma text

unfoldable pub from_comma : Bytes → Bytes
from_comma [] = []
from_comma (c ∷ text) = if c == b',' then c ∷ text else from_comma text

unfoldable pub skip_boundaries : Bytes → Bytes
skip_boundaries [] = []
skip_boundaries (c ∷ text) = if is_token_boundary c then skip_boundaries text else c ∷ text

-- The outer loop of `HeaderValueHasToken` on the characters from `index` on. Each round passes at
-- least one character, so the length of the text is fuel enough.
unfoldable pub scan_tokens : (fuel : ℕ) → Bytes → Bytes → Bool
scan_tokens zero rest token = false
scan_tokens (suc fuel) [] token = false
scan_tokens (suc fuel) (c ∷ text) token =
    let rest = skip_boundaries (c ∷ text) in
    let more = scan_tokens fuel (from_comma rest) token in
    if text_equals_ignore_case (bytes (trim (until_comma rest))) (bytes token) then true else more

unfoldable pub header_value_has_token : Buffer → Buffer → Bool
header_value_has_token (bytes value) (bytes token) =
    let trimmed = trim value in
    if length token == 0 then false else scan_tokens (length trimmed) trimmed token
header_value_has_token _ _ = false
