-- ===== src/Http/Parser/Trailer.antt =====
-- ParseTrailerFieldLine of src/KernelHttpLib/http/HttpParser.cpp, and the split of a line at its
-- colon, which ParseHeaders shares.
use win_kernel_http.Common.{Bool, not, ◌||◌, ◌==◌, length, drop}
use win_kernel_http.Common.Buffer.{Bytes, bytes, byte_at}
use win_kernel_http.Common.Status.{
  Result, ok, ◌>>◌, refuse, invalid_parameter, invalid_network_response,
}
use Prim.Native.String.{String}
use win_kernel_http.Common.Text.{codes}
use win_kernel_http.Http.Text.{trim, text_equals_ignore_case, is_whitespace}
use win_kernel_http.Http.Response.{HttpHeader}
use win_kernel_http.Http.Parser.Chars.{
  until_char, from_char, is_valid_header_name, is_valid_header_value,
}

-- The texts are the ones in front of the first colon and behind it.
abbrev pub line_name : Bytes → Bytes
line_name line = until_char b':' line

unfoldable pub line_value : Bytes → Bytes
unfolding trim
line_value line = trim (drop 1 (from_char b':' line))

-- `colon == InvalidOffset || colon == start`
abbrev pub is_bad_line : Bytes → Bool
is_bad_line line = length (from_char b':' line) == 0 || length (line_name line) == 0

abbrev pub line_header : Bytes → HttpHeader
line_header line = record { name = bytes (line_name line); value = bytes (line_value line) }

abbrev same_name : Bytes → String → Bool
same_name name text = text_equals_ignore_case (bytes name) (bytes (codes text))

unfoldable pub is_forbidden_trailer_field : Bytes → Bool
unfolding text_equals_ignore_case
is_forbidden_trailer_field name =
    same_name name "Content-Length"
    || same_name name "Transfer-Encoding"
    || same_name name "Host"
    || same_name name "Authorization"
    || same_name name "Proxy-Authorization"
    || same_name name "Cookie"
    || same_name name "Set-Cookie"

unfoldable pub parse_trailer_field_line : Bytes → Result HttpHeader
unfolding is_forbidden_trailer_field line_value
parse_trailer_field_line line = do
  refuse (length line == 0) invalid_parameter
  refuse (is_whitespace (byte_at line 0)) invalid_network_response
  refuse (is_bad_line line) invalid_network_response
  refuse
      (not (is_valid_header_name (line_name line))
        || not (is_valid_header_value (line_value line))
        || is_forbidden_trailer_field (line_name line))
      invalid_network_response
  ok (line_header line)
