-- ===== src/WebSocket/Subprotocol.antt =====
-- The subprotocol negotiation of src/KernelHttpLib/websocket/WebSocketFrame.cpp: what a token is,
-- which one the server selected, and whether it was requested.
use win_kernel_http.Common.{
  ℕ, zero, suc, List, [], ◌∷◌, Bool, true, false, not, ◌&&◌, ◌||◌, ltb, leb, ◌==◌, if◌then◌else◌,
  Option, none, some, length,
}
use win_kernel_http.Common.Buffer.{Bytes, Buffer, null, bytes, buffer_length, is_missing}
use win_kernel_http.Common.Status.{invalid_parameter, invalid_network_response, Result, ok, err}
use win_kernel_http.Common.Text.{codes}
use win_kernel_http.Http.Text.{
  trim, trim_optional_whitespace, text_equals_ignore_case, until_comma, from_comma,
}
use win_kernel_http.Http.Response.{HttpHeader, HttpResponse}
pub mod Negotiation

abbrev pub is_subprotocol_separator : ℕ → Bool
is_subprotocol_separator value =
    value == b'('
    || value == b')'
    || value == b'<'
    || value == b'>'
    || value == b'@'
    || value == b','
    || value == b';'
    || value == b':'
    || value == b'\\'
    || value == b'"'
    || value == b'/'
    || value == b'['
    || value == b']'
    || value == b'?'
    || value == b'='
    || value == b'{'
    || value == b'}'
    || value == b' '
    || value == b'\t'

-- The loop of `IsValidSubprotocolToken`.
unfoldable pub is_token_text : Bytes → Bool
is_token_text [] = true
is_token_text (value ∷ token) =
    if leb value 0x20 || leb 0x7f value || is_subprotocol_separator value
    then false
    else is_token_text token

unfoldable pub is_valid_subprotocol_token : Buffer → Bool
is_valid_subprotocol_token (null n) = false
is_valid_subprotocol_token (bytes token) = if length token == 0 then false else is_token_text token

-- `RtlCompareMemory(left, right, length) == length` on two texts of one length.
unfoldable pub same_memory : Bytes → Bytes → Bool
same_memory [] [] = true
same_memory (a ∷ left) (b ∷ right) = if a == b then same_memory left right else false
same_memory _ _ = false

unfoldable pub text_equals : Buffer → Buffer → Bool
text_equals (bytes left) (bytes right) =
    if length left == length right then same_memory left right else false
text_equals left right =
    (buffer_length left == buffer_length right)
    && not (is_missing left)
    && not (is_missing right)
    && buffer_length left == 0

-- The loop of `FindSelectedSubprotocol`: `selected` is what an earlier header selected.
unfoldable pub select_from : Buffer → List HttpHeader → Option Buffer → Result (Option Buffer)
select_from name [] selected = ok selected
select_from name (h ∷ hs) none =
    if text_equals_ignore_case (HttpHeader.name h) name
    then select_from name hs (some (trim_optional_whitespace (HttpHeader.value h)))
    else select_from name hs none
select_from name (h ∷ hs) (some earlier) =
    if text_equals_ignore_case (HttpHeader.name h) name
    then err invalid_network_response
    else select_from name hs (some earlier)

abbrev pub protocol_header : Buffer
protocol_header = bytes (codes "Sec-WebSocket-Protocol")

-- The token behind the loop.
abbrev pub accept_selected : Result (Option Buffer) → Result (Option Buffer)
accept_selected (err e) = err e
accept_selected (ok none) = ok none
accept_selected (ok (some selected)) =
    if is_valid_subprotocol_token selected then ok (some selected) else err invalid_network_response

-- `FindSelectedSubprotocol` with both out pointers: what `*selected` is left as, `none` where
-- `*present` is false.
unfoldable pub find_selected_subprotocol : HttpResponse → Result (Option Buffer)
find_selected_subprotocol response = elim (HttpResponse.headers response) [
  | none ↦
      if HttpResponse.missing_count response == 0 then ok none else err invalid_network_response
  | some hs ↦ accept_selected (select_from protocol_header hs none)
]

-- The loop of `CountHeaders`.
unfoldable pub count_in : List HttpHeader → Buffer → ℕ
count_in [] name = 0
count_in (h ∷ hs) name =
    let count = count_in hs name in
    if text_equals_ignore_case (HttpHeader.name h) name then suc count else count

unfoldable pub count_headers : HttpResponse → Buffer → ℕ
count_headers response name = elim (HttpResponse.headers response) [
  | none ↦ 0
  | some hs ↦ count_in hs name
]

-- The loop of `ValidateSelectedSubprotocol` on the characters of `requested` from `index` on. Each
-- round but the last passes a comma, so one more than the length is fuel enough.
unfoldable pub validate_from : (fuel : ℕ) → Bytes → Buffer → Bool → Result Bool
validate_from zero rest selected matched = ok matched
validate_from (suc fuel) rest selected matched =
    let candidate = bytes (trim (until_comma rest)) in
    let matched' = if text_equals candidate selected then true else matched in
    if not (is_valid_subprotocol_token candidate)
    then err invalid_parameter
    else elim (from_comma rest) [
      | [] ↦ ok matched'
      | comma ∷ behind ↦ validate_from fuel behind selected matched'
    ]

-- The verdict behind the loop.
abbrev pub verdict : Result Bool → Result (Unit {0})
verdict (err e) = err e
verdict (ok true) = ok tt
verdict (ok false) = err invalid_network_response

unfoldable pub validate_selected_subprotocol : Buffer → Buffer → Result (Unit {0})
validate_selected_subprotocol selected (null n) = err invalid_network_response
validate_selected_subprotocol selected (bytes requested) =
    if not (is_valid_subprotocol_token selected)
    then err invalid_network_response
    else if length requested == 0
    then err invalid_network_response
    else verdict (validate_from (suc (length requested)) requested selected false)
