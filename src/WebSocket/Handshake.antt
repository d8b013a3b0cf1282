-- ===== src/WebSocket/Handshake.antt =====
-- The opening handshake of src/KernelHttpLib/websocket/WebSocketFrame.cpp: ConstantTimeEquals,
-- ComputeAcceptValue and ValidateServerHandshake. The hash contexts of crypto::CngHashContext and
-- their allocation are the parameter `sha1`, which is given all that was passed to `Update`;
-- `allocated` says whether the `HeapArray` for the expected value is valid.
use win_kernel_http.Common.{
  ℕ, zero, suc, List, [], ◌∷◌, ◌++◌, ◌%◌, ◌^◌, Bool, true, false, not, ◌&&◌, ◌||◌, ltb, ◌==◌,
  if◌then◌else◌, Option, none, some, length, bit_or, bit_xor,
}
use win_kernel_http.Common.Buffer.{
  Bytes, Buffer, null, bytes, buffer_length, contents, Outcome, fails,
}
use win_kernel_http.Common.Status.{
  Status, invalid_parameter, invalid_network_response, insufficient_resources, Result, ok, err,
  ◌>>=◌, ◌>>◌, require, refuse,
}
use win_kernel_http.Common.Text.{codes}
use win_kernel_http.Http.Response.{HttpHeader, HttpResponse, find_header, has_header_value_token}
use win_kernel_http.WebSocket.Base64.{base64_encode}
use win_kernel_http.WebSocket.Subprotocol.{
  count_headers, find_selected_subprotocol, validate_selected_subprotocol,
}
pub mod Difference
pub mod Accept
mod Examples

abbrev pub websocket_guid : Bytes
websocket_guid = codes "258EAFA5-E914-47DA-95CA-C5AB0DC85B11"

abbrev pub sha1_digest_length : ℕ
sha1_digest_length = 20

abbrev pub accept_value_length : ℕ
accept_value_length = 28

-- The loop of `ConstantTimeEquals`; `char` and the cast keep eight bits.
unfoldable pub difference : Bytes → Bytes → ℕ → ℕ → ℕ
difference (a ∷ left) (b ∷ right) (suc n) diff =
    difference left right n (bit_or diff (bit_xor a b) % 2 ^ 8)
difference _ _ _ diff = diff

unfoldable pub constant_time_equals : Buffer → Buffer → ℕ → Bool
constant_time_equals (bytes left) (bytes right) n = difference left right n 0 == 0
constant_time_equals _ _ n = false

abbrev pub accept_name : Buffer
accept_name = bytes (codes "Sec-WebSocket-Accept")

abbrev pub extensions_name : Buffer
extensions_name = bytes (codes "Sec-WebSocket-Extensions")

abbrev pub has_upgrade_tokens : HttpResponse → Bool
has_upgrade_tokens response =
    has_header_value_token response (bytes (codes "Connection")) (bytes (codes "Upgrade"))
    && has_header_value_token response (bytes (codes "Upgrade")) (bytes (codes "websocket"))

-- The first test of `ValidateServerHandshake`, negated.
abbrev pub is_upgrade : HttpResponse → Bool
is_upgrade response =
    HttpResponse.status_code response == 101
    && HttpResponse.major_version response == 1
    && HttpResponse.minor_version response == 1
    && has_upgrade_tokens response

-- What a status with an out parameter is as a result.
abbrev pub stored_text : Outcome → Result Bytes
stored_text outcome = elim (Outcome.status outcome) [
  | none ↦ ok (Outcome.stored outcome)
  | some status ↦ err status
]

-- The one header that carries the accept value.
unfoldable pub find_accept : HttpResponse → Result HttpHeader
find_accept response = elim (find_header response accept_name) [
  | none ↦ err invalid_network_response
  | some accept ↦
      if count_headers response accept_name == 1 then ok accept else err invalid_network_response
]

abbrev pub refuse_extensions : HttpResponse → Result (Unit {0})
refuse_extensions response = elim (find_header response extensions_name) [
  | none ↦ ok tt
  | some extensions ↦ err invalid_network_response
]

-- The comparison of the accept value with the expected one.
unfoldable pub check_accept : HttpHeader → Bytes → Result (Unit {0})
check_accept accept expected =
    if buffer_length (HttpHeader.value accept) == length expected
    then require (constant_time_equals (HttpHeader.value accept) (bytes expected) (length expected))
        invalid_network_response
    else err invalid_network_response

-- What `*selectedSubprotocol` is set to; `none` where it stays empty.
abbrev pub check_selected : Buffer → Option Buffer → Result (Option Buffer)
check_selected requested none = ok none
check_selected requested (some selected) =
    validate_selected_subprotocol selected requested >> ok (some selected)

module _ (sha1 : Bytes → Result Bytes) where
  -- `Base64Encode` behind the digest.
  abbrev pub encode_digest : Result Bytes → ℕ → Outcome
  encode_digest (err status) capacity = fails status
  encode_digest (ok digest) capacity =
      if length digest == sha1_digest_length
      then base64_encode (bytes digest) (some capacity)
      else fails invalid_network_response

  -- A null `destination` is `none`.
  unfoldable pub compute_accept_value : Buffer → Option ℕ → Outcome
  compute_accept_value (null n) destination = fails invalid_parameter
  compute_accept_value (bytes client_key) none = fails invalid_parameter
  compute_accept_value (bytes client_key) (some capacity) =
      if length client_key == 0
      then fails invalid_parameter
      else encode_digest (sha1 (client_key ++ websocket_guid)) capacity

  unfoldable pub validate_server_handshake :
      Bool → HttpResponse → Buffer → Buffer → Result (Option Buffer)
  validate_server_handshake allocated response client_key requested = do
    require (is_upgrade response) invalid_network_response
    accept ← find_accept response
    refuse_extensions response
    require allocated insufficient_resources
    expected ← stored_text (compute_accept_value client_key (some accept_value_length))
    check_accept accept expected
    selected ← find_selected_subprotocol response
    check_selected requested selected
