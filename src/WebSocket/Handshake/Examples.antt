-- ===== src/WebSocket/Handshake/Examples.antt =====
-- A concrete handshake for src/KernelHttpLib/websocket/WebSocketFrame.cpp. `digest_of` stands for
-- the hash: the digest of RFC 6455, section 1.3, whatever the text.
use win_kernel_http.Common.{
  List, [], ◌∷◌, ◌++◌, ◌≡◌, refl, sym, ◌∙◌, true, not, ◌||◌, ◌==◌, if◌then◌else◌, Option, none,
  some, length, All, arith,
}
use mathlib.Core.Path.{subst}
use win_kernel_http.Common.Base64.{decode_base64}
use win_kernel_http.Common.Buffer.{Bytes, IsByte, bytes, contents}
use win_kernel_http.Common.Status.{
  invalid_parameter, invalid_network_response, Result, ok, err, ◌>>=◌,
}
use win_kernel_http.Common.Text.{codes}
use win_kernel_http.Http.Text.Elements.{elements}
use win_kernel_http.Http.Response.{
  HttpHeader, HttpResponse, find_header, find_in, has_header_value_token, has_value_token_in,
}
use win_kernel_http.Http.Text.{
  text_equals_ignore_case, same_ignore_case, header_value_has_token, trim, trim_front,
  trimmed_length, until_comma, from_comma, skip_boundaries, scan_tokens,
}
use win_kernel_http.WebSocket.Base64.{
  base64_char, base64_groups, base64_encode, required_length, padding, base64_encode_round_trip,
}
use win_kernel_http.WebSocket.Subprotocol.{
  is_valid_subprotocol_token, is_token_text, protocol_header, find_selected_subprotocol,
  select_from, count_headers, count_in, validate_selected_subprotocol, validate_from, text_equals,
  same_memory,
}
use win_kernel_http.WebSocket.Subprotocol.Negotiation.{
  is_token, are_tokens, includes, selection, values_of, validate_selected_subprotocol_lem,
  find_selected_subprotocol_lem,
}
use win_kernel_http.WebSocket.Handshake.{
  check_selected, validate_server_handshake, constant_time_equals, difference, check_accept,
  find_accept, compute_accept_value, accept_name, extensions_name, is_upgrade,
}
use win_kernel_http.WebSocket.Handshake.Accept.{
  HasByteText, IsAnswer, IsRequested, validate_server_handshake_sound,
  validate_server_handshake_complete,
}

abbrev digest : Bytes
digest =
    0xb3 ∷ 0x7a ∷ 0x4f ∷ 0x2c ∷ 0xc0 ∷ 0x62 ∷ 0x4f ∷ 0x16 ∷ 0x90 ∷ 0xf6 ∷ 0x46 ∷ 0x06 ∷ 0xcf ∷ 0x38
    ∷ 0x59 ∷ 0x45 ∷ 0xb2 ∷ 0xbe ∷ 0xc4 ∷ 0xea ∷ []

abbrev digest_of : Bytes → Result Bytes
digest_of input = ok digest

abbrev field : Bytes → Bytes → HttpHeader
field name value = record { name = bytes name; value = bytes value }

abbrev fields : List HttpHeader
fields =
    field (codes "Upgrade") (codes "websocket")
    ∷ field (codes "Connection") (codes "Upgrade")
    ∷ field (codes "Sec-WebSocket-Accept") (codes "s3pPLMBiTxaQ9kYGzzhZRbK+xOo=")
    ∷ field (codes "Sec-WebSocket-Protocol") (codes "chat")
    ∷ []

abbrev response : HttpResponse
response = record {
  status_code = 101;
  major_version = 1;
  minor_version = 1;
  headers = some fields;
  missing_count = 0;
}

abbrev client_key : Bytes
client_key = codes "dGhlIHNhbXBsZSBub25jZQ=="

abbrev requested : Bytes
requested = codes "chat, superchat"

base64_encode_round_trip_example :
    (text : Bytes) × (base64_encode (bytes digest) (some 28) ≡ record {
      status = none;
      stored = text ++ padding (length digest);
      count = required_length (length digest);
    })
    × (decode_base64 b'+' text ≡ digest)
base64_encode_round_trip_example =
    base64_encode_round_trip digest 28 (omega arith) (omega arith) (omega arith)

validate_selected_subprotocol_lem_example :
    validate_selected_subprotocol (bytes (codes "chat")) (bytes requested) ≡ (
      if not (is_token (bytes (codes "chat"))) || length requested == 0
      then err invalid_network_response
      else if not (are_tokens (elements requested))
      then err invalid_parameter
      else if includes (elements requested) (codes "chat")
      then ok tt
      else err invalid_network_response)
validate_selected_subprotocol_lem_example =
    validate_selected_subprotocol_lem (bytes (codes "chat")) requested

find_selected_subprotocol_lem_example :
    find_selected_subprotocol response ≡ selection (values_of protocol_header fields)
find_selected_subprotocol_lem_example = find_selected_subprotocol_lem response fields refl

abbrev accept_field : HttpHeader
accept_field = field (codes "Sec-WebSocket-Accept") (codes "s3pPLMBiTxaQ9kYGzzhZRbK+xOo=")

accept_found : find_header response accept_name ≡ some accept_field
unfolding find_header find_in text_equals_ignore_case same_ignore_case
accept_found = refl

abbrev HasText : Option HttpHeader → Type 0
HasText none = Unit
HasText (some h) = All IsByte (contents (HttpHeader.value h))

response-HasByteText : HasByteText response
response-HasByteText accept e = subst HasText (sym accept_found ∙ e) (omega arith)

validated :
    validate_server_handshake digest_of true response (bytes client_key) (bytes requested)
    ≡ ok (some (bytes (codes "chat")))
unfolding validate_server_handshake find_header find_in text_equals_ignore_case same_ignore_case
    header_value_has_token has_header_value_token has_value_token_in trim trim_front trimmed_length
    until_comma from_comma skip_boundaries scan_tokens base64_char base64_groups base64_encode
    is_valid_subprotocol_token is_token_text find_selected_subprotocol select_from count_headers
    count_in validate_selected_subprotocol validate_from text_equals same_memory
    constant_time_equals difference check_accept find_accept compute_accept_value
validated = refl

validate_server_handshake_sound_example :
    IsAnswer digest_of response (bytes client_key)
    × (find_selected_subprotocol response ≡ ok (some (bytes (codes "chat"))))
    × IsRequested (bytes requested) (some (bytes (codes "chat")))
validate_server_handshake_sound_example =
    validate_server_handshake_sound digest_of true response (bytes client_key) (bytes requested)
      (some (bytes (codes "chat"))) response-HasByteText validated

extensions_absent : find_header response extensions_name ≡ none
unfolding find_header find_in text_equals_ignore_case same_ignore_case
extensions_absent = refl

upgraded : is_upgrade response ≡ true
unfolding has_header_value_token has_value_token_in text_equals_ignore_case same_ignore_case
    header_value_has_token trim trim_front trimmed_length until_comma from_comma skip_boundaries
    scan_tokens
upgraded = refl

accept_single : count_headers response accept_name ≡ 1
unfolding count_headers count_in text_equals_ignore_case same_ignore_case
accept_single = refl

accept_text : HttpHeader.value accept_field ≡ bytes (base64_groups digest)
unfolding base64_groups base64_char
accept_text = refl

answer : IsAnswer digest_of response (bytes client_key)
answer = record {
  is_switch = upgraded;
  accept = accept_field;
  is_found = accept_found;
  is_single = accept_single;
  digest = digest;
  is_digest = record {
    key = client_key;
    is_key = refl;
    is_nonempty = omega arith;
    is_digest = refl;
    is_twenty = refl;
  };
  is_value = accept_text;
  is_plain = extensions_absent;
}

validate_server_handshake_complete_example :
    validate_server_handshake digest_of true response (bytes client_key) (bytes requested)
    ≡ (find_selected_subprotocol response >>= check_selected (bytes requested))
validate_server_handshake_complete_example =
    validate_server_handshake_complete digest_of response (bytes client_key) (bytes requested)
      response-HasByteText answer
