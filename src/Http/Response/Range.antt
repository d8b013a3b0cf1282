-- ===== src/Http/Response/Range.antt =====
-- GetContentRange and the fixed lookups of src/KernelHttpLib/http/HttpResponse.cpp.
use win_kernel_http.Common.{
  ℕ, [], ◌∷◌, ◌+◌, ◌-◌, ◌*◌, ◌/◌, ◌^◌, ◌≤◌, ◌<◌, ◌≡◌, refl, ◌∙◌, Bool, true, false, not, ◌&&◌, ◌||◌,
  ltb, leb, ◌==◌, if◌then◌else◌, Option, none, some, length, take, drop, arith, Option-cases,
  Bool-cases, inl, inr,
}
use win_kernel_http.Common.Buffer.{Bytes, Buffer, null, bytes, byte_at}
use win_kernel_http.Common.Text.{codes}
use win_kernel_http.Http.Text.{trim_front}
use win_kernel_http.Http.Response.{HttpResponse, HttpHeader, find_header, has_header_value_token}
pub mod Bounds

abbrev pub has_connection_close : HttpResponse → Bool
has_connection_close response =
    has_header_value_token response (bytes (codes "Connection")) (bytes (codes "close"))

abbrev pub has_connection_keep_alive : HttpResponse → Bool
has_connection_keep_alive response =
    has_header_value_token response (bytes (codes "Connection")) (bytes (codes "keep-alive"))

abbrev pub has_chunked_transfer_encoding : HttpResponse → Bool
has_chunked_transfer_encoding response =
    has_header_value_token response (bytes (codes "Transfer-Encoding")) (bytes (codes "chunked"))

abbrev pub is_partial_content : HttpResponse → Bool
is_partial_content response = response.status_code == 206

pub record ContentRange : Type 0 where
  pub first_byte_pos : ℕ
  pub last_byte_pos : ℕ
  pub complete_length : ℕ
  pub has_range : Bool
  pub has_complete_length : Bool

-- A number and what follows it.
pub record Unsigned : Type 0 where
  pub value : ℕ
  pub rest : Bytes

abbrev pub max_ulonglong : ℕ
max_ulonglong = 2 ^ 64 - 1

-- The loop of `ParseUnsigned` with `result` so far, `none` where it would overflow.
unfoldable pub unsigned_rounds : Bytes → ℕ → Option Unsigned
unsigned_rounds [] result = some (record { value = result; rest = [] })
unsigned_rounds (c ∷ text) result =
    let digit = c - b'0' in
    let more = unsigned_rounds text (result * 10 + digit) in
    if ltb c b'0' || ltb b'9' c
    then some (record { value = result; rest = c ∷ text })
    else if ltb ((max_ulonglong - digit) / 10) result
    then none
    else more

-- `ParseUnsigned`: at least one digit.
unfoldable pub parse_unsigned : Bytes → Option Unsigned
unfolding unsigned_rounds
parse_unsigned text = elim (unsigned_rounds text 0) [
  | none ↦ none
  | some found ↦ if length (Unsigned.rest found) == length text then none else some found
]

abbrev pub bind_option {ℓ κ} : {A : Type ℓ} {B : Type κ} → Option A → (A → Option B) → Option B
bind_option none next = none
bind_option (some a) next = next a

-- `if (index >= length || data[index] != c) return false; ++index;`
abbrev pub expect : ℕ → Bytes → Option Bytes
expect c [] = none
expect c (d ∷ text) = if d == c then some text else none

-- Trailing whitespace only.
abbrev pub at_end : ContentRange → Bytes → Option ContentRange
at_end range text = if length (trim_front text) == 0 then some range else none

-- `*/complete-length`
unfoldable pub unsatisfied_range : Bytes → Option ContentRange
unfolding parse_unsigned trim_front
unsatisfied_range text = bind_option (expect b'/' text) λ number.
    bind_option (parse_unsigned number) λ complete.
      at_end
        (record {
          first_byte_pos = 0;
          last_byte_pos = 0;
          complete_length = complete.value;
          has_range = false;
          has_complete_length = true;
        })
        complete.rest

-- What stands behind the slash of a range: `*`, or a length above the last position.
unfoldable pub range_complete : ℕ → ℕ → Bytes → Option ContentRange
unfolding parse_unsigned trim_front
range_complete first last text =
    if not (length text == 0) && byte_at text 0 == b'*'
    then at_end
        (record {
          first_byte_pos = first;
          last_byte_pos = last;
          complete_length = 0;
          has_range = true;
          has_complete_length = false;
        })
        (drop 1 text)
    else (bind_option (parse_unsigned text) λ complete.
        if leb complete.value last
        then none
        else at_end
            (record {
              first_byte_pos = first;
              last_byte_pos = last;
              complete_length = complete.value;
              has_range = true;
              has_complete_length = true;
            })
            complete.rest)

-- `first-last/complete`
unfoldable pub satisfied_range : Bytes → Option ContentRange
unfolding parse_unsigned range_complete
satisfied_range text = bind_option (parse_unsigned text) λ first.
    bind_option (expect b'-' first.rest) λ behind. bind_option (parse_unsigned behind) λ last.
      if ltb last.value first.value
      then none
      else bind_option (expect b'/' last.rest) (range_complete first.value last.value)

-- `GetContentRange` on the value of the header, `none` where it returns false; what it leaves in
-- `*range` then is not part of the model.
unfoldable pub range_of_value : Bytes → Option ContentRange
unfolding unsatisfied_range satisfied_range trim_front
range_of_value value =
    let units = trim_front value in
    let behind = drop 5 units in
    let text = trim_front behind in
    if not (same_units (take 5 units))
      || length behind == 0
      || length text == length behind
      || length text == 0
    then none
    else if byte_at text 0 == b'*'
    then unsatisfied_range (drop 1 text)
    else satisfied_range text
  where
    same_units : Bytes → Bool
    same_units (b ∷ y ∷ t ∷ e ∷ s ∷ []) =
        b == b'b' && y == b'y' && t == b't' && e == b'e' && s == b's'
    same_units _ = false

unfoldable pub range_of_buffer : Buffer → Option ContentRange
unfolding range_of_value
range_of_buffer (null n) = none
range_of_buffer (bytes value) = range_of_value value

unfoldable pub get_content_range : HttpResponse → Option ContentRange
unfolding find_header range_of_buffer
get_content_range response = elim (find_header response (bytes (codes "Content-Range"))) [
  | none ↦ none
  | some header ↦ range_of_buffer (HttpHeader.value header)
]
