-- ===== src/Http/Parser/Fields.antt =====
-- ParseHeaders and ReadContentLength of src/KernelHttpLib/http/HttpParser.cpp.
use win_kernel_http.Common.{
  ℕ, zero, suc, List, [], ◌∷◌, ◌++◌, ◌+◌, ◌-◌, Bool, true, false, not, ◌&&◌, ◌||◌, ltb, leb, ◌==◌,
  if◌then◌else◌, Option, none, some, length, take, drop,
}
use win_kernel_http.Common.Buffer.{Bytes, bytes, byte_at, contents}
use win_kernel_http.Common.Status.{
  Result, ok, err, ◌>>=◌, ◌>>◌, refuse, require, buffer_too_small, invalid_network_response,
}
use win_kernel_http.Common.Text.{codes}
use win_kernel_http.Http.Text.{trim, text_equals_ignore_case, is_whitespace}
use win_kernel_http.Http.Response.{HttpHeader}
use win_kernel_http.Http.Parser.Chars.{contains_char, is_valid_header_name, is_valid_header_value}
use win_kernel_http.Http.Parser.Number.{parse_size}
use win_kernel_http.Http.Parser.Lines.{find_crlf}
use win_kernel_http.Http.Parser.Trailer.{line_name, line_value, line_header, is_bad_line}
pub mod Validity
pub mod ContentLength

abbrev pub max_header_bytes : ℕ
max_header_bytes = 65536

abbrev pub max_header_line_bytes : ℕ
max_header_line_bytes = 8192

abbrev pub max_headers : ℕ
max_headers = 200

-- One line of the headers; `capacity` is that of the array, a null array having none.
unfoldable pub parse_header_line : Bytes → ℕ → List HttpHeader → Result HttpHeader
unfolding line_value
parse_header_line line capacity headers = do
  refuse (is_whitespace (byte_at line 0)) invalid_network_response
  refuse (is_bad_line line) invalid_network_response
  refuse (leb max_headers (length headers) || leb capacity (length headers)) buffer_too_small
  refuse
      (not (is_valid_header_name (line_name line)) || not (is_valid_header_value (line_value line)))
      invalid_network_response
  ok (line_header line)

-- The loop, with the characters from `cursor` on. Each round passes at least two of them, and at
-- their end a further round finds no line. The code subtracts 2 from a `headerEnd` that its caller
-- found behind a blank line, so from 4 or more.
unfoldable pub header_rounds :
    ℕ → Bytes → (cursor header_end capacity : ℕ) → List HttpHeader → Result (List HttpHeader)
unfolding parse_header_line
header_rounds zero rest cursor header_end capacity headers =
    if ltb cursor (header_end - 2) then err invalid_network_response else ok headers
header_rounds (suc fuel) rest cursor header_end capacity headers = elim (find_crlf rest) [
  | none ↦ if ltb cursor (header_end - 2) then err invalid_network_response else ok headers
  | some line_end ↦
      if not (ltb cursor (header_end - 2))
      then ok headers
      else if ltb header_end (cursor + line_end)
      then err invalid_network_response
      else if ltb max_header_line_bytes line_end
      then err invalid_network_response
      else if line_end == 0
      then ok headers
      else (parse_header_line (take line_end rest) capacity headers >>= λ header.
          header_rounds fuel (drop (line_end + 2) rest) (cursor + line_end + 2) header_end capacity
            (headers ++ (header ∷ [])))
]

unfoldable pub parse_headers :
    Bytes → (header_start header_end capacity : ℕ) → Result (List HttpHeader)
unfolding header_rounds
parse_headers data_ header_start header_end capacity =
    if ltb header_end header_start || ltb max_header_bytes (header_end - header_start)
    then err invalid_network_response
    else header_rounds (length data_) (drop header_start data_) header_start header_end capacity []

abbrev pub is_content_length : HttpHeader → Bool
is_content_length h = text_equals_ignore_case h.name (bytes (codes "Content-Length"))

-- The value of one such header, where `found` says whether there was one before.
unfoldable pub content_length_of : HttpHeader → Option ℕ → Result ℕ
unfolding trim parse_size
content_length_of h found = do
  let value = trim (contents h.value)
  refuse (length value == 0 || contains_char value b',') invalid_network_response
  refuse (is_found found) invalid_network_response
  parse_size value
  where
    is_found : Option ℕ → Bool
    is_found none = false
    is_found (some n) = true

-- The loop of `ReadContentLength`, with what was found so far.
unfoldable pub content_length_rounds : List HttpHeader → Option ℕ → Result (Option ℕ)
unfolding content_length_of
content_length_rounds [] found = ok found
content_length_rounds (h ∷ headers) found =
    let rest = content_length_rounds headers found in
    if is_content_length h
    then (content_length_of h found >>= λ parsed. content_length_rounds headers (some parsed))
    else rest

abbrev pub read_content_length : List HttpHeader → Result (Option ℕ)
read_content_length headers = content_length_rounds headers none
