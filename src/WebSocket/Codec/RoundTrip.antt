-- ===== src/WebSocket/Codec/RoundTrip.antt =====
-- What EncodeFrame of src/KernelHttpLib/websocket/WebSocketFrame.cpp writes, as DecodeFrameHeader
-- and DecodeFramePayload read it.
use win_kernel_http.Common.{
  ℕ, [], ◌∷◌, ◌++◌, ◌+◌, ◌^◌, ◌≤◌, ◌<◌, ◌≡◌, refl, arith, Bool, true, false, if◌then◌else◌, none,
  some, length, take, drop, All, length-append, take-append, drop-append, take-length,
}
use win_kernel_http.Common.Buffer.{Bytes, bytes, IsByte}
use win_kernel_http.Common.Status.{invalid_network_response, ok, err}
use mathlib.Core.List.{append_assoc}
use win_kernel_http.WebSocket.Codec.{
  Opcode, continuation, reserved, opcode_code, is_known_opcode, FrameHeader, apply_mask,
  header_size, write_frame, encode_frame, encode_client_frame, encode_client_frame_for_http2,
  decode_frame_header, copy_payload, decode_frame_payload,
}
use win_kernel_http.WebSocket.Codec.Masking.{length-apply_mask}
use win_kernel_http.WebSocket.Codec.Server.{read_masked, read_masked-frame}
use win_kernel_http.WebSocket.Codec.Fields.{
  IsOpcode, IsAllowed, first_byte, size_bytes, write_payload_length_lem, length-size_bytes,
  decode-header, decode-masked,
}

is_known_of_IsOpcode :
    (opcode : Opcode) → IsOpcode opcode → is_known_opcode (opcode_code opcode) ≡ true
unfolding is_known_opcode opcode_code
is_known_of_IsOpcode continuation o = refl
is_known_of_IsOpcode (reserved n) o = absurd o
is_known_of_IsOpcode _ o = refl

-- `EncodeFrame` on input that passes its tests.
encode_frame_lem :
    (opcode : Opcode) (fin : Bool) (payload key : Bytes) (masked : Bool) (capacity : ℕ)
    → IsOpcode opcode
    → IsAllowed opcode fin (length payload)
    → length payload < 2 ^ 63
    → header_size (length payload) masked + length payload ≤ capacity
    → encode_frame opcode fin
        (bytes payload)
        (if masked then some key else none)
        masked
        (some capacity)
      ≡ record {
        status = none;
        stored =
            first_byte fin opcode
            ∷ (size_bytes (length payload) masked
                ++ ((if masked then take 4 key else [])
                    ++ (if masked then apply_mask key 0 payload else payload)));
        count = header_size (length payload) masked + length payload;
      }
unfolding encode_frame write_frame
encode_frame_lem opcode fin payload key true capacity o a h c = ground (
  arith,
  is_known_of_IsOpcode opcode o,
  write_payload_length_lem (length payload) true capacity,
  length-size_bytes (length payload) true,
)
encode_frame_lem opcode fin payload key false capacity o a h c = ground (
  arith,
  is_known_of_IsOpcode opcode o,
  write_payload_length_lem (length payload) false capacity,
  length-size_bytes (length payload) false,
)

-- A payload that stands behind an unmasked header is copied out.
decode_payload_lem :
    (asserts : Bool) (h : FrameHeader) (front payload rest : Bytes)
    → h.header_length ≡ length front
    → h.payload_length ≡ length payload
    → length payload < 2 ^ 63
    → h.masked ≡ false
    → decode_frame_payload asserts h (bytes (front ++ (payload ++ rest))) (some (length payload))
      ≡ some (record { status = none; stored = payload; count = length payload })
unfolding decode_frame_payload copy_payload
decode_payload_lem asserts h front payload rest p q k plain =
    let behind : drop h.header_length (front ++ (payload ++ rest)) ≡ payload ++ rest =
      rw p (drop-append front (payload ++ rest)) in
    let cut : take h.payload_length (payload ++ rest) ≡ payload = rw q (take-append payload rest) in
    rw (behind, cut)
      (ground (arith, plain, length-append front (payload ++ rest), length-append payload rest))

-- For every opcode of the enumeration, a payload of fewer than 2^63 bytes that the opcode allows,
-- and room for the frame, `EncodeClientFrameForHttp2` succeeds and counts what it wrote; whatever
-- follows, `DecodeFrameHeader` gives back opcode, FIN and sizes, and `DecodeFramePayload` by that
-- header the payload, its assertion evaluated or not.
pub http2_frame_round_trip :
    (opcode : Opcode) (fin asserts : Bool) (payload rest : Bytes) (capacity : ℕ)
    → IsOpcode opcode
    → IsAllowed opcode fin (length payload)
    → length payload < 2 ^ 63
    → header_size (length payload) false + length payload ≤ capacity
    → let out = encode_client_frame_for_http2 opcode fin (bytes payload) (some capacity) in
      let src = bytes (out.stored ++ rest) in
      (out.status ≡ none)
      × (out.count ≡ length out.stored)
      × ((h : FrameHeader) × (decode_frame_header src ≡ ok h)
          × (h.opcode ≡ opcode)
          × (h.fin ≡ fin)
          × (h.payload_length ≡ length payload)
          × (h.header_length + h.payload_length ≡ length out.stored)
          × (decode_frame_payload asserts h src (some (length payload))
              ≡ some (record { status = none; stored = payload; count = length payload })))
unfolding encode_client_frame_for_http2
http2_frame_round_trip opcode fin asserts payload rest capacity o a h c =
    let n = length payload in
    let header : FrameHeader = record {
      fin = fin;
      masked = false;
      opcode = opcode;
      payload_length = n;
      masking_key = 0 ∷ 0 ∷ 0 ∷ 0 ∷ [];
      header_length = header_size n false;
    } in
    let front = first_byte fin opcode ∷ size_bytes n false in
    let size : header_size n false ≡ length front = omega (arith, length-size_bytes n false) in
    rw (encode_frame_lem opcode fin payload [] false capacity o a h c) (
      refl,
      omega (arith, size, length-append (size_bytes n false) payload),
      (
        header,
        rw append_assoc (decode-header fin opcode n (payload ++ rest) o a h),
        refl,
        refl,
        refl,
        omega (arith, size, length-append (size_bytes n false) payload),
        rw append_assoc (decode_payload_lem asserts header front payload rest size refl h refl),
      ),
    )

-- For every opcode of the enumeration, a payload of fewer than 2^63 bytes that the opcode allows, a
-- key of four bytes and room for the frame, `EncodeClientFrame` succeeds and counts what it wrote;
-- whatever follows, a server that reads it by RFC 6455 gets FIN, the opcode, the payload and what
-- follows, and `DecodeFrameHeader`, which is for the client's side, refuses the masked frame.
pub client_frame_round_trip :
    (opcode : Opcode) (fin : Bool) (payload key rest : Bytes) (capacity : ℕ)
    → IsOpcode opcode
    → IsAllowed opcode fin (length payload)
    → length payload < 2 ^ 63
    → All IsByte payload
    → All IsByte key
    → length key ≡ 4
    → header_size (length payload) true + length payload ≤ capacity
    → let out = encode_client_frame opcode fin (bytes payload) (some key) (some capacity) in
      (out.status ≡ none)
      × (out.count ≡ length out.stored)
      × (read_masked (out.stored ++ rest)
          ≡ some
              (record { fin = fin; opcode = opcode_code opcode; payload = payload; behind = rest }))
      × (decode_frame_header (bytes (out.stored ++ rest)) ≡ err invalid_network_response)
unfolding encode_client_frame
client_frame_round_trip opcode fin payload key rest capacity o a h hp hk four c =
    let n = length payload in
    let field = size_bytes n true in
    let coded = apply_mask key 0 payload in
    let whole : take 4 key ≡ key = rw (← four) (take-length key) in
    rw (encode_frame_lem opcode fin payload key true capacity o a h c, whole)
      (
        refl,
        omega (
          arith,
          length-size_bytes n true,
          length-apply_mask key payload 0,
          length-append field (key ++ coded),
          length-append key coded,
        ),
        rw (append_assoc, append_assoc)
            (read_masked-frame fin opcode payload key rest o h hp hk four),
        rw append_assoc (decode-masked fin opcode n ((key ++ coded) ++ rest) o h),
      )
