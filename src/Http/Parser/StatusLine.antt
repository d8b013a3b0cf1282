-- ===== src/Http/Parser/StatusLine.antt =====
-- ParseStatusLine of src/KernelHttpLib/http/HttpParser.cpp.
use win_kernel_http.Common.{
  ℕ, zero, suc, List, [], ◌∷◌, ◌++◌, ◌+◌, ◌≤◌, ◌<◌, ◌≡◌, refl, Bool, true, false, not, ◌&&◌, ◌||◌,
  ltb, leb, ◌==◌, if◌then◌else◌, length, take, drop, arith,
}
use win_kernel_http.Common.Buffer.{Bytes, byte_at}
use win_kernel_http.Common.Status.{
  Result, ok, err, ◌>>=◌, ◌>>◌, refuse, require, invalid_network_response,
}
use win_kernel_http.Common.Text.{codes}
use win_kernel_http.Http.Parser.Chars.{is_digit}
use win_kernel_http.Http.Parser.Number.{parse_uint16}
pub mod RoundTrip

-- `StartsWith` on texts that are there.
abbrev pub starts_with : Bytes → Bytes → Bool
starts_with text [] = true
starts_with [] (p ∷ prefix) = false
starts_with (c ∷ text) (p ∷ prefix) = if not (c == p) then false else starts_with text prefix

-- `while (index < length && IsDigit(data[index])) ++index;`: what it passes, and what is left.
abbrev pub digits_of : Bytes → Bytes
digits_of [] = []
digits_of (c ∷ text) = if is_digit c then c ∷ digits_of text else []

abbrev pub skip_digits : Bytes → Bytes
skip_digits [] = []
skip_digits (c ∷ text) = if is_digit c then skip_digits text else c ∷ text

-- `while (index < length && data[index] == ' ') ++index;`
abbrev pub skip_spaces : Bytes → Bytes
skip_spaces [] = []
skip_spaces (c ∷ text) = if c == b' ' then skip_spaces text else c ∷ text

-- One number of the version, in front of `separator`.
unfoldable pub version_number : ℕ → Bytes → Result ℕ
unfolding parse_uint16
version_number separator text = do
  refuse
      (length (digits_of text) == 0
        || length (skip_digits text) == 0
        || not (byte_at (skip_digits text) 0 == separator))
      invalid_network_response
  parse_uint16 (digits_of text)

pub record StatusLine : Type 0 where
  pub major_version : ℕ
  pub minor_version : ℕ
  pub status_code : ℕ
  pub reason_phrase : Bytes

-- The reason phrase behind the status code.
abbrev pub reason : Bytes → Result Bytes
reason [] = ok []
reason (c ∷ text) = if c == b' ' then ok text else err invalid_network_response

unfoldable pub parse_status_line : Bytes → Result StatusLine
unfolding version_number
parse_status_line line = do
  require (starts_with line (codes "HTTP/")) invalid_network_response
  let major_text = drop 5 line
  major ← version_number b'.' major_text
  let minor_text = drop 1 (skip_digits major_text)
  minor ← version_number b' ' minor_text
  refuse (not (major == 1) || ltb 1 minor) invalid_network_response
  let rest = skip_spaces (skip_digits minor_text)
  refuse
      (ltb (length rest) 3
        || not (is_digit (byte_at rest 0))
        || not (is_digit (byte_at rest 1))
        || not (is_digit (byte_at rest 2)))
      invalid_network_response
  code ← parse_uint16 (take 3 rest)
  refuse (ltb code 100 || ltb 599 code) invalid_network_response
  phrase ← reason (drop 3 rest)
  ok (record {
    major_version = major;
    minor_version = minor;
    status_code = code;
    reason_phrase = phrase;
  })
