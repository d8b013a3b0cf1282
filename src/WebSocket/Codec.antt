-- ===== src/WebSocket/Codec.antt =====
-- The frame codec of src/KernelHttpLib/websocket/WebSocketFrame.cpp. `SIZE_T` has 64 bits. A null
-- destination is `none`; `*bytesWritten` is the count of an outcome (a null `bytesWritten` only
-- drops it).
use win_kernel_http.Common.{
  ℕ, List, [], ◌∷◌, ◌++◌, ◌+◌, ◌-◌, ◌*◌, ◌/◌, ◌%◌, ◌^◌, Bool, true, false, not, ◌&&◌, ◌||◌, ltb,
  leb, ◌==◌, if◌then◌else◌, Option, none, some, length, take, drop, bit_xor, zero, suc,
}
use win_kernel_http.Common.Buffer.{
  Bytes, Buffer, null, bytes, buffer_length, contents, is_missing, Outcome, fails, shr, low_bits,
  has_bit, byte_at,
}
use win_kernel_http.Common.Status.{
  Status, invalid_parameter, buffer_too_small, invalid_network_response, integer_overflow,
  more_processing_required, Result, ok, err, ◌>>=◌, ◌>>◌, refuse,
}
pub mod Masking
pub mod Fields
pub mod Server
pub mod RoundTrip
pub mod Decoding
pub mod Refusal
mod Examples

abbrev pub max_size : ℕ
max_size = 2 ^ 64 - 1

abbrev pub masking_key_length : ℕ
masking_key_length = 4

abbrev pub max_control_payload_length : ℕ
max_control_payload_length = 125

abbrev pub maximum_payload_length : ℕ
maximum_payload_length = 0x7fff_ffff_ffff_ffff

-- `WebSocketOpcode`; `reserved` holds the values with no enumerator.
pub data Opcode : Type 0 where
  continuation text binary close ping pong : Opcode
  reserved : ℕ → Opcode

pub opcode_code : Opcode → ℕ
opcode_code continuation = 0
opcode_code text = 1
opcode_code binary = 2
opcode_code close = 8
opcode_code ping = 9
opcode_code pong = 10
opcode_code (reserved n) = n

pub opcode_of_code : ℕ → Opcode
opcode_of_code n =
    if n == 0
    then continuation
    else if n == 1
    then text
    else if n == 2
    then binary
    else if n == 8
    then close
    else if n == 9
    then ping
    else if n == 10
    then pong
    else reserved n

-- `IsKnownOpcode`.
pub is_known_opcode : ℕ → Bool
is_known_opcode n = n == 0 || n == 1 || n == 2 || n == 8 || n == 9 || n == 10

-- `IsControlOpcode`.
pub is_control_opcode : Opcode → Bool
is_control_opcode close = true
is_control_opcode ping = true
is_control_opcode pong = true
is_control_opcode _ = false

pub record FrameHeader : Type 0 where
  pub fin : Bool
  pub masked : Bool
  pub opcode : Opcode
  pub payload_length : ℕ
  pub masking_key : Bytes
  pub header_length : ℕ

-- `WritePayloadLength`: what it stores at `*cursor`.
pub write_payload_length : ℕ → Bool → ℕ → ℕ → Result Bytes
write_payload_length n masked capacity cursor =
    let mask_bit : ℕ = if masked then 0x80 else 0 in
    if leb capacity cursor
    then err invalid_parameter
    else if leb n 125
    then ok ((mask_bit + n) ∷ [])
    else if leb n 0xffff
    then (if ltb (capacity - cursor) 3
        then err buffer_too_small
        else ok ((mask_bit + 126) ∷ low_bits (shr n 8) 8 ∷ low_bits n 8 ∷ []))
    else if ltb (capacity - cursor) 9
    then err buffer_too_small
    else ok (
        (mask_bit + 127)
        ∷ low_bits (shr n 56) 8
        ∷ low_bits (shr n 48) 8
        ∷ low_bits (shr n 40) 8
        ∷ low_bits (shr n 32) 8
        ∷ low_bits (shr n 24) 8
        ∷ low_bits (shr n 16) 8
        ∷ low_bits (shr n 8) 8
        ∷ low_bits n 8
        ∷ [])

-- The masking loop of `EncodeFrame` and `DecodeFramePayload`, from `index` on.
pub apply_mask : Bytes → ℕ → Bytes → Bytes
apply_mask key index [] = []
apply_mask key index (b ∷ bs) =
    bit_xor b (byte_at key (index % masking_key_length)) ∷ apply_mask key (index + 1) bs

-- `headerLength` of `EncodeFrame`.
abbrev pub header_size : ℕ → Bool → ℕ
header_size n masked =
    2
    + (if masked then masking_key_length else 0)
    + (if ltb 125 n && leb n 0xffff then 2 else if ltb 0xffff n then 8 else 0)

-- The writes of `EncodeFrame`, behind its tests.
pub write_frame : Opcode → Bool → Bytes → Bytes → Bool → ℕ → Outcome
write_frame opcode fin payload key masked capacity =
    let first = (if fin then 0x80 else 0) + opcode_code opcode in
    elim (write_payload_length (length payload) masked capacity 1) [
      | err status ↦ record { status = some status; stored = first ∷ []; count = 0 }
      | ok size ↦ record {
        status = none;
        stored =
            first
            ∷ (size
                ++ ((if masked then take masking_key_length key else [])
                    ++ (if masked then apply_mask key 0 payload else payload)));
        count = 1 + length size + (if masked then masking_key_length else 0) + length payload;
      }
    ]

-- `maskingKey == nullptr`
abbrev pub is_null : Option Bytes → Bool
is_null none = true
is_null (some key) = false

abbrev pub key_bytes : Option Bytes → Bytes
key_bytes none = []
key_bytes (some key) = key

-- `EncodeFrame`.
pub encode_frame : Opcode → Bool → Buffer → Option Bytes → Bool → Option ℕ → Outcome
encode_frame opcode fin payload key masked none = fails invalid_parameter
encode_frame opcode fin payload key masked (some capacity) =
    let n = buffer_length payload in
    let required = header_size n masked + n in
    if is_missing payload || (masked && is_null key)
    then fails invalid_parameter
    else if not (is_known_opcode (opcode_code opcode))
    then fails invalid_parameter
    else if is_control_opcode opcode && (not fin || ltb max_control_payload_length n)
    then fails invalid_parameter
    else if ltb maximum_payload_length n
    then fails invalid_parameter
    else if ltb (max_size - header_size n masked) n
    then fails integer_overflow
    else if ltb capacity required
    then record { status = some buffer_too_small; stored = []; count = required }
    else write_frame opcode fin (contents payload) (key_bytes key) masked capacity

-- `EncodeClientFrame`.
pub encode_client_frame : Opcode → Bool → Buffer → Option Bytes → Option ℕ → Outcome
encode_client_frame opcode fin payload key dest = encode_frame opcode fin payload key true dest

-- `EncodeClientFrameForHttp2`.
pub encode_client_frame_for_http2 : Opcode → Bool → Buffer → Option ℕ → Outcome
encode_client_frame_for_http2 opcode fin payload dest =
    encode_frame opcode fin payload none false dest

-- `value = (value << 8) | data[j]` for `n` bytes, in a `ULONGLONG`.
pub read_rounds : ℕ → ℕ → Bytes → ℕ → ℕ
read_rounds zero value src j = value
read_rounds (suc n) value src j =
    read_rounds n (low_bits (value * 2 ^ 8) 64 + byte_at src j) src (j + 1)

-- `ReadExtendedLength` on a given data pointer: the payload length and the new cursor.
pub read_extended_length : Bytes → ℕ → ℕ → Result (ℕ × ℕ)
read_extended_length src code cursor =
    if leb code 125
    then ok (code, cursor)
    else if code == 126
    then (if ltb (length src - cursor) 2
        then err more_processing_required
        else let value = byte_at src cursor * 2 ^ 8 + byte_at src (cursor + 1) in
          if leb value 125 then err invalid_network_response else ok (value, cursor + 2))
    else if ltb (length src - cursor) 8
    then err more_processing_required
    else let value = read_rounds 8 0 src cursor in
      if has_bit value 63 || leb value 0xffff
      then err invalid_network_response
      else ok (value, cursor + 8)

-- `DecodeFrameHeader`. The reserved bits are bits 4 to 6 of the first byte.
pub decode_frame_header : Buffer → Result FrameHeader
decode_frame_header (null n) = err invalid_parameter
decode_frame_header (bytes src) = do
  refuse (ltb (length src) 2) more_processing_required
  let first = byte_at src 0
  let second = byte_at src 1
  refuse (not (low_bits (shr first 4) 3 == 0)) invalid_network_response
  let code = low_bits first 4
  refuse (not (is_known_opcode code)) invalid_network_response
  (size, cursor) ← read_extended_length src (low_bits second 7) 2
  refuse (has_bit second 7) invalid_network_response
  let opcode = opcode_of_code code
  refuse (is_control_opcode opcode && (not (has_bit first 7) || ltb 125 size))
      invalid_network_response
  ok (record {
    fin = has_bit first 7;
    masked = has_bit second 7;
    opcode = opcode;
    payload_length = size;
    masking_key = 0 ∷ 0 ∷ 0 ∷ 0 ∷ [];
    header_length = cursor;
  })

-- The end of `DecodeFramePayload`, on a payload that is there. `asserts` says whether the build
-- evaluates `NT_ASSERT(!header.Masked)`; where that fails, there is no outcome.
pub copy_payload : (asserts : Bool) → FrameHeader → Bytes → Option ℕ → Option Outcome
copy_payload asserts header src none =
    some (record { status = some buffer_too_small; stored = []; count = header.payload_length })
copy_payload asserts header src (some capacity) =
    let payload = take header.payload_length (drop header.header_length src) in
    if ltb capacity header.payload_length
    then some
        (record { status = some buffer_too_small; stored = []; count = header.payload_length })
    else if asserts && header.masked
    then none
    else some (record {
      status = none;
      stored = (if header.masked then apply_mask header.masking_key 0 payload else payload);
      count = header.payload_length;
    })

-- `DecodeFramePayload`.
pub decode_frame_payload : (asserts : Bool) → FrameHeader → Buffer → Option ℕ → Option Outcome
decode_frame_payload asserts header (null n) dest =
    if ltb max_size header.payload_length
    then some (fails buffer_too_small)
    else some (fails more_processing_required)
decode_frame_payload asserts header (bytes src) dest =
    if ltb max_size header.payload_length
    then some (fails buffer_too_small)
    else if ltb (length src) header.header_length
        || ltb (length src - header.header_length) header.payload_length
    then some (fails more_processing_required)
    else copy_payload asserts header src dest
