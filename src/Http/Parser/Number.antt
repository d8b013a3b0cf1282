-- ===== src/Http/Parser/Number.antt =====
-- The numbers of src/KernelHttpLib/http/HttpParser.cpp: ParseUInt16, ParseSize and ParseHexSize.
use win_kernel_http.Common.{
  ℕ, zero, suc, List, [], ◌∷◌, ◌+◌, ◌-◌, ◌*◌, ◌/◌, ◌^◌, Bool, true, false, not, ltb, leb, ◌==◌,
  if◌then◌else◌, length,
}
use win_kernel_http.Common.Buffer.{Bytes}
use win_kernel_http.Common.Status.{
  Result, ok, err, invalid_parameter, invalid_network_response, integer_overflow,
}
use win_kernel_http.Http.Parser.Chars.{is_digit, is_hex_digit, hex_value}
pub mod Positional

abbrev pub max_size_t : ℕ
max_size_t = 2 ^ 64 - 1

-- The loop of `ParseUInt16` with `parsed` so far. A 32-bit `parsed` does not wrap, being at most
-- 65535 * 10 + 9 when it is tested.
pub uint16_loop : Bytes → ℕ → Result ℕ
uint16_loop [] parsed = ok parsed
uint16_loop (c ∷ text) parsed =
    let next = parsed * 10 + (c - b'0') in
    let rest = uint16_loop text next in
    if not (is_digit c)
    then err invalid_network_response
    else if ltb 65535 next
    then err integer_overflow
    else rest

unfoldable pub parse_uint16 : Bytes → Result ℕ
unfolding uint16_loop
parse_uint16 text = if length text == 0 then err invalid_parameter else uint16_loop text 0

-- The loop of `ParseSize`.
pub size_loop : Bytes → ℕ → Result ℕ
size_loop [] parsed = ok parsed
size_loop (c ∷ text) parsed =
    let digit = c - b'0' in
    let rest = size_loop text (parsed * 10 + digit) in
    if not (is_digit c)
    then err invalid_network_response
    else if ltb ((max_size_t - digit) / 10) parsed
    then err integer_overflow
    else rest

unfoldable pub parse_size : Bytes → Result ℕ
unfolding size_loop
parse_size text = if length text == 0 then err invalid_parameter else size_loop text 0

-- The loop of `ParseHexSize`.
pub hex_loop : Bytes → ℕ → Result ℕ
hex_loop [] parsed = ok parsed
hex_loop (c ∷ text) parsed =
    let digit = hex_value c in
    let rest = hex_loop text (parsed * 16 + digit) in
    if not (is_hex_digit c)
    then err invalid_network_response
    else if ltb ((max_size_t - digit) / 16) parsed
    then err integer_overflow
    else rest

unfoldable pub parse_hex_size : Bytes → Result ℕ
unfolding hex_loop
parse_hex_size text = if length text == 0 then err invalid_parameter else hex_loop text 0
