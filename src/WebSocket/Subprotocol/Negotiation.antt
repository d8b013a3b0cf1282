-- ===== src/WebSocket/Subprotocol/Negotiation.antt =====
-- What the subprotocol negotiation of src/KernelHttpLib/websocket/WebSocketFrame.cpp decides, by
-- an independent reading of the header lists.
use win_kernel_http.Common.{
  ℕ, zero, suc, List, [], ◌∷◌, ◌<◌, ◌≡◌, refl, ap, Bool-cases, Bool, true, false, not, ◌&&◌, ◌||◌,
  ◌==◌, ltb, if◌then◌else◌, Option, none, some, length, arith, ◌⊎◌, inl, inr,
}
use win_kernel_http.Common.Buffer.{Bytes, Buffer, null, bytes, contents}
use win_kernel_http.Common.Status.{invalid_parameter, invalid_network_response, Result, ok, err}
use win_kernel_http.Common.Text.{codes}
use win_kernel_http.Http.Text.{
  trim, trim_optional_whitespace, text_equals_ignore_case, from_comma, until_comma,
}
use win_kernel_http.Http.Text.Elements.{elements, elements-from_comma, length-from_comma}
use win_kernel_http.Http.Response.{HttpHeader, HttpResponse}
use win_kernel_http.WebSocket.Subprotocol.{
  is_subprotocol_separator, is_token_text, is_valid_subprotocol_token, same_memory, text_equals,
  select_from, protocol_header, accept_selected, find_selected_subprotocol, validate_from,
  validate_selected_subprotocol,
}

-- Found before, or one of the characters.
abbrev pub is_among : Bool → ℕ → Bytes → Bool
is_among found c [] = found
is_among found c (x ∷ xs) = is_among (found || c == x) c xs

-- The separators of RFC 2616, section 2.2.
abbrev pub separators : Bytes
separators = codes "()<>@,;:\\\"/[]?={} \t"

-- Printable ASCII without separators.
abbrev pub all_plain : Bytes → Bool
all_plain [] = true
all_plain (c ∷ text) =
    ltb 0x20 c && ltb c 0x7f && not (is_among false c separators) && all_plain text

-- A token of RFC 6455, section 4.1.
abbrev pub is_token : Buffer → Bool
is_token (null n) = false
is_token (bytes text) = ltb 0 (length text) && all_plain text

is_subprotocol_separator_lem : (c : ℕ) → is_subprotocol_separator c ≡ is_among false c separators
is_subprotocol_separator_lem c = refl

is_token_text_lem : (text : Bytes) → is_token_text text ≡ all_plain text
unfolding is_token_text
is_token_text_lem [] = refl
is_token_text_lem (c ∷ text) =
    ground (arith, is_subprotocol_separator_lem c, is_token_text_lem text)

is_valid_subprotocol_token_lem : (v : Buffer) → is_valid_subprotocol_token v ≡ is_token v
unfolding is_valid_subprotocol_token
is_valid_subprotocol_token_lem (null n) = refl
is_valid_subprotocol_token_lem (bytes text) = ground (arith, is_token_text_lem text)

-- All elements, trimmed, are tokens.
abbrev pub are_tokens : List Bytes → Bool
are_tokens [] = true
are_tokens (item ∷ items) = is_token (bytes (trim item)) && are_tokens items

abbrev pub is_same : Bytes → Bytes → Bool
is_same [] [] = true
is_same (a ∷ left) (b ∷ right) = a == b && is_same left right
is_same _ _ = false

is_same-length : (left right : Bytes) → is_same left right ≡ true → length left ≡ length right
is_same-length [] [] h = refl
is_same-length (a ∷ left) (b ∷ right) h = ap suc (is_same-length left right (ground arith))
is_same-length [] (b ∷ right) h = absurd (ground arith)
is_same-length (a ∷ left) [] h = absurd (ground arith)

same_memory_lem : (left right : Bytes) → same_memory left right ≡ is_same left right
unfolding same_memory
same_memory_lem [] [] = refl
same_memory_lem (a ∷ left) (b ∷ right) = ground (arith, same_memory_lem left right)
same_memory_lem [] (b ∷ right) = refl
same_memory_lem (a ∷ left) [] = refl

text_equals_lem : (left right : Bytes) → text_equals (bytes left) (bytes right) ≡ is_same left right
unfolding text_equals
text_equals_lem left right = elim (Bool-cases (is_same left right)) [
  | inl same ↦ ground (arith, same_memory_lem left right, is_same-length left right same)
  | inr other ↦ ground (arith, same_memory_lem left right)
]

-- One of the elements, trimmed, is the text.
abbrev pub includes : List Bytes → Bytes → Bool
includes [] selected = false
includes (item ∷ items) selected = is_same (trim item) selected || includes items selected

-- What the loop makes of the elements that are left.
abbrev outcome : List Bytes → Bytes → Bool → Result Bool
outcome items selected matched =
    if are_tokens items then ok (matched || includes items selected) else err invalid_parameter

List-cases : (xs : Bytes) → (xs ≡ []) ⊎ ((x : ℕ) × (rest : Bytes) × (xs ≡ x ∷ rest))
List-cases [] = inl refl
List-cases (x ∷ xs) = inr (x, xs, refl)

validate_from-outcome :
    (fuel : ℕ) (rest selected : Bytes) (matched : Bool)
    → length rest < fuel
    → validate_from fuel rest (bytes selected) matched ≡ outcome (elements rest) selected matched
unfolding validate_from
validate_from-outcome zero rest selected matched h = absurd (omega arith)
validate_from-outcome (suc fuel) rest selected matched h = elim (List-cases (from_comma rest)) [
  | inl last ↦ ground (
    arith,
    elements-from_comma rest,
    is_valid_subprotocol_token_lem (bytes (trim (until_comma rest))),
    text_equals_lem (trim (until_comma rest)) selected,
  )
  | inr (comma, behind, e) ↦
      let shorter : length behind < fuel = ground (arith, length-from_comma rest) in
      ground (
        arith,
        elements-from_comma rest,
        is_valid_subprotocol_token_lem (bytes (trim (until_comma rest))),
        text_equals_lem (trim (until_comma rest)) selected,
        validate_from-outcome fuel behind selected true shorter,
        validate_from-outcome fuel behind selected matched shorter,
      )
]

-- Against a requested list, a selected subprotocol is accepted exactly where it is a token of RFC
-- 6455, the list is not empty, every element of the list is a token, and the selected one is among
-- them; a list with an element that is no token is an invalid parameter if the selected one is a
-- token, and everything else an invalid response.
pub validate_selected_subprotocol_lem :
    (selected : Buffer) (requested : Bytes)
    → validate_selected_subprotocol selected (bytes requested) ≡ (
        if not (is_token selected) || length requested == 0
        then err invalid_network_response
        else if not (are_tokens (elements requested))
        then err invalid_parameter
        else if includes (elements requested) (contents selected)
        then ok tt
        else err invalid_network_response)
unfolding validate_selected_subprotocol
validate_selected_subprotocol_lem (null n) requested =
    ground (arith, is_valid_subprotocol_token_lem (null n))
validate_selected_subprotocol_lem (bytes selected) requested = ground (
  arith,
  is_valid_subprotocol_token_lem (bytes selected),
  validate_from-outcome (suc (length requested)) requested selected false,
)

-- The values of the headers of one name, trimmed, in order.
abbrev pub values_of : Buffer → List HttpHeader → List Buffer
values_of name [] = []
values_of name (h ∷ hs) =
    let others = values_of name hs in
    if text_equals_ignore_case (HttpHeader.name h) name
    then trim_optional_whitespace (HttpHeader.value h) ∷ others
    else others

abbrev only : Option Buffer → List Buffer → Result (Option Buffer)
only selected [] = ok selected
only none (v ∷ []) = ok (some v)
only _ _ = err invalid_network_response

select_from-only :
    (name : Buffer) (hs : List HttpHeader) (selected : Option Buffer)
    → select_from name hs selected ≡ only selected (values_of name hs)
unfolding select_from
select_from-only name [] selected = refl
select_from-only name (h ∷ hs) none = ground (
  arith,
  select_from-only name hs none,
  select_from-only name hs (some (trim_optional_whitespace (HttpHeader.value h))),
)
select_from-only name (h ∷ hs) (some v) = ground (arith, select_from-only name hs (some v))

-- What the values of the header select.
abbrev pub selection : List Buffer → Result (Option Buffer)
selection [] = ok none
selection (v ∷ []) = if is_token v then ok (some v) else err invalid_network_response
selection _ = err invalid_network_response

accept-only : (values : List Buffer) → accept_selected (only none values) ≡ selection values
accept-only [] = refl
accept-only (v ∷ []) = rw (is_valid_subprotocol_token_lem v) refl
accept-only (v ∷ w ∷ values) = refl

-- With headers, no value of the protocol header selects nothing, one that is a token of RFC 6455
-- once trimmed (printable ASCII without separators, not empty) selects that token, and one that is
-- none, or two values or more, make the response invalid.
pub find_selected_subprotocol_lem :
    (response : HttpResponse) (hs : List HttpHeader)
    → HttpResponse.headers response ≡ some hs
    → find_selected_subprotocol response ≡ selection (values_of protocol_header hs)
unfolding find_selected_subprotocol
find_selected_subprotocol_lem response hs h =
    rw (h, select_from-only protocol_header hs none) (accept-only (values_of protocol_header hs))
