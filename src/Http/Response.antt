-- ===== src/Http/Response.antt =====
-- The header lookups of src/KernelHttpLib/http/HttpResponse.cpp.
use win_kernel_http.Common.{
  ℕ, List, [], ◌∷◌, Bool, true, false, ◌&&◌, ◌==◌, if◌then◌else◌, Option, none, some, length,
}
use win_kernel_http.Common.Buffer.{Buffer, null, bytes}
use win_kernel_http.Http.Text.{text_equals_ignore_case, header_value_has_token}
pub mod Range
mod Examples

pub record HttpHeader : Type 0 where
  pub name : Buffer
  pub value : Buffer

-- The fields of `HttpResponse` that the lookups and the handshake read; `headers` is the array
-- behind the pointer, which is null exactly when `headers` is `none`, `header_count` then being
-- any count.
pub record HttpResponse : Type 0 where
  pub status_code : ℕ
  pub major_version : ℕ
  pub minor_version : ℕ
  pub headers : Option (List HttpHeader)
  pub missing_count : ℕ

unfoldable pub find_in : List HttpHeader → Buffer → Option HttpHeader
find_in [] name = none
find_in (h ∷ hs) name =
    if text_equals_ignore_case (HttpHeader.name h) name then some h else find_in hs name

-- `FindHeader`: the header it points at, `none` where it returns false.
unfoldable pub find_header : HttpResponse → Buffer → Option HttpHeader
find_header response (null n) = none
find_header response (bytes name) = elim (HttpResponse.headers response) [
  | none ↦ none
  | some hs ↦ if length name == 0 then none else find_in hs (bytes name)
]

unfoldable pub has_value_token_in : List HttpHeader → Buffer → Buffer → Bool
has_value_token_in [] name token = false
has_value_token_in (h ∷ hs) name token =
    if text_equals_ignore_case (HttpHeader.name h) name
      && header_value_has_token (HttpHeader.value h) token
    then true
    else has_value_token_in hs name token

unfoldable pub has_header_value_token : HttpResponse → Buffer → Buffer → Bool
has_header_value_token response name (null n) = false
has_header_value_token response name (bytes token) = elim (HttpResponse.headers response) [
  | none ↦ false
  | some hs ↦ if length token == 0 then false else has_value_token_in hs name (bytes token)
]
