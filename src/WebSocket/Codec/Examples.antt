-- ===== src/WebSocket/Codec/Examples.antt =====
-- Concrete frames for src/KernelHttpLib/websocket/WebSocketFrame.cpp.
use win_kernel_http.Common.{
  [], ◌∷◌, ◌++◌, ◌+◌, ◌≤◌, ◌≡◌, ◌≢◌, refl, true, false, none, some, length, arith,
}
use win_kernel_http.Common.Buffer.{Bytes, bytes}
use win_kernel_http.Common.Status.{invalid_network_response, more_processing_required, ok, err}
use win_kernel_http.WebSocket.Codec.{
  text, ping, FrameHeader, opcode_code, encode_client_frame, encode_client_frame_for_http2,
  decode_frame_header, decode_frame_payload, opcode_of_code, is_known_opcode, is_control_opcode,
  read_extended_length,
}
use win_kernel_http.WebSocket.Codec.Server.{read_masked}
use win_kernel_http.WebSocket.Codec.RoundTrip.{http2_frame_round_trip, client_frame_round_trip}
use win_kernel_http.WebSocket.Codec.Refusal.{IsWhole, encode_client_frame-IsWhole}
use win_kernel_http.WebSocket.Codec.Decoding.{IsServerHeader, decode_frame_header-IsServerHeader}

abbrev hello : Bytes
hello = 0x48 ∷ 0x65 ∷ 0x6c ∷ 0x6c ∷ 0x6f ∷ []

abbrev key : Bytes
key = 0x37 ∷ 0xfa ∷ 0x21 ∷ 0x3d ∷ []

abbrev behind : Bytes
behind = 0x89 ∷ []

http2_frame_round_trip_example :
    let out = encode_client_frame_for_http2 text true (bytes hello) (some 7) in
    let src = bytes (out.stored ++ behind) in
    (out.status ≡ none)
    × (out.count ≡ length out.stored)
    × ((h : FrameHeader) × (decode_frame_header src ≡ ok h)
        × (h.opcode ≡ text)
        × (h.fin ≡ true)
        × (h.payload_length ≡ 5)
        × (h.header_length + h.payload_length ≡ length out.stored)
        × (decode_frame_payload true h src (some 5)
            ≡ some (record { status = none; stored = hello; count = 5 })))
http2_frame_round_trip_example =
    http2_frame_round_trip text true true hello behind 7 tt (unfold is_control_opcode in refl)
      (omega arith) (omega arith)

client_frame_round_trip_example :
    let out = encode_client_frame text true (bytes hello) (some key) (some 11) in
    (out.status ≡ none)
    × (out.count ≡ length out.stored)
    × (read_masked (out.stored ++ behind)
        ≡ some (record { fin = true; opcode = opcode_code text; payload = hello; behind = behind }))
    × (decode_frame_header (bytes (out.stored ++ behind)) ≡ err invalid_network_response)
client_frame_round_trip_example =
    client_frame_round_trip text true hello key behind 11 tt (unfold is_control_opcode in refl)
      (omega arith) (omega arith) (omega arith) refl (omega arith)

abbrev ping_frame : Bytes
ping_frame = 0x89 ∷ 0x02 ∷ 0x61 ∷ 0x62 ∷ []

abbrev ping_header : FrameHeader
ping_header = record {
  fin = true;
  masked = false;
  opcode = ping;
  payload_length = 2;
  masking_key = 0 ∷ 0 ∷ 0 ∷ 0 ∷ [];
  header_length = 2;
}

ping_frame_header : decode_frame_header (bytes ping_frame) ≡ ok ping_header
unfolding decode_frame_header read_extended_length opcode_of_code is_known_opcode is_control_opcode
ping_frame_header = refl

decode_frame_header-IsServerHeader_example : IsServerHeader ping_header × (2 ≤ length ping_frame)
decode_frame_header-IsServerHeader_example =
    decode_frame_header-IsServerHeader ping_frame {h = ping_header} (omega arith) ping_frame_header

ping_verdict : decode_frame_header (bytes ping_frame) ≢ err more_processing_required
ping_verdict e = ground (arith, ping_frame_header)

encode_client_frame-IsWhole_example :
    IsWhole (encode_client_frame text true (bytes hello) (some key) (some 10)) 10
encode_client_frame-IsWhole_example =
    encode_client_frame-IsWhole text true (bytes hello) key 10 refl
