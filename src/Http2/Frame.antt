-- ===== src/Http2/Frame.antt =====
-- HTTP/2 frames: include/KernelHttp/http2/Http2Frame.h and
-- src/KernelHttpLib/http2/Http2Frame.cpp. A null `dest` and a null `bytesWritten` are refused
-- alike and first; both are `none`, and `some capacity` stands for the two pointers given.
use win_kernel_http.Common.{
  ℕ, List, [], ◌∷◌, ◌++◌, ◌+◌, ◌-◌, ◌*◌, ◌/◌, ◌%◌, ◌^◌, ◌≤◌, ◌<◌, Bool, true, false, not, ◌&&◌,
  ◌||◌, ltb, leb, ◌==◌, if◌then◌else◌, Option, none, some, length, take, drop,
}
use win_kernel_http.Common.Buffer.{
  Bytes, Buffer, null, bytes, buffer_length, contents, is_missing, Written, shr, low_bits, has_bit,
  byte_at,
}
use win_kernel_http.Common.Status.{
  Status, invalid_parameter, buffer_too_small, invalid_network_response, more_processing_required,
  Result, ok, err, ◌>>=◌, ◌>>◌, refuse,
}
use win_kernel_http.Http2.Wire.{write_uint24_be, write_uint32_be, read_uint24_be, read_uint32_be}
pub mod Settings
pub mod Layout
pub mod RoundTrip
pub mod Base64Url
pub mod Payload
pub mod Control
mod Examples

abbrev pub frame_header_length : ℕ
frame_header_length = 9

abbrev pub max_allowed_frame_size : ℕ
max_allowed_frame_size = 16777215

abbrev pub max_window_size : ℕ
max_window_size = 0x7fff_ffff

-- `Http2FrameType`. A received type byte may be any: `other` holds the ones with no enumerator.
pub data FrameType : Type 0 where
  data_ headers priority rst_stream settings push_promise : FrameType
  ping goaway window_update continuation : FrameType
  other : ℕ → FrameType

pub type_code : FrameType → ℕ
type_code data_ = 0
type_code headers = 1
type_code priority = 2
type_code rst_stream = 3
type_code settings = 4
type_code push_promise = 5
type_code ping = 6
type_code goaway = 7
type_code window_update = 8
type_code continuation = 9
type_code (other n) = n

-- `static_cast<Http2FrameType>(src[3])`
pub type_of_code : ℕ → FrameType
type_of_code n =
    if n == 0
    then data_
    else if n == 1
    then headers
    else if n == 2
    then priority
    else if n == 3
    then rst_stream
    else if n == 4
    then settings
    else if n == 5
    then push_promise
    else if n == 6
    then ping
    else if n == 7
    then goaway
    else if n == 8
    then window_update
    else if n == 9
    then continuation
    else other n

pub record FrameHeader : Type 0 where
  pub length_ : ℕ
  pub type_ : FrameType
  pub flags : ℕ
  pub stream_id : ℕ

abbrev pub flag_end_stream : ℕ
flag_end_stream = 1

abbrev pub flag_ack : ℕ
flag_ack = 1

abbrev pub flag_end_headers : ℕ
flag_end_headers = 4

-- The bits of the PADDED (0x08) and PRIORITY (0x20) flags.
abbrev pub padded_bit : ℕ
padded_bit = 3

abbrev pub priority_bit : ℕ
priority_bit = 5

-- `EncodeFrameHeader`.
pub encode_frame_header : FrameHeader → Option ℕ → Result Written
encode_frame_header header none = err invalid_parameter
encode_frame_header header (some capacity) = do
  refuse (ltb capacity frame_header_length) buffer_too_small
  refuse (ltb max_allowed_frame_size header.length_) invalid_parameter
  refuse (has_bit header.stream_id 31) invalid_parameter
  ok (record {
    stored =
        write_uint24_be header.length_
        ++ (type_code header.type_ ∷ header.flags ∷ write_uint32_be (low_bits header.stream_id 31));
    count = frame_header_length;
  })

-- `DecodeFrameHeader`.
pub decode_frame_header : Buffer → Result FrameHeader
decode_frame_header (null n) = err invalid_parameter
decode_frame_header (bytes src) = do
  refuse (ltb (length src) frame_header_length) more_processing_required
  ok (record {
    length_ = read_uint24_be src 0;
    type_ = type_of_code (byte_at src 3);
    flags = byte_at src 4;
    stream_id = low_bits (read_uint32_be src 5) 31;
  })

-- A frame header, then the payload: the end of every encoder below.
abbrev pub finish_frame : FrameHeader → ℕ → Bytes → Result Written
finish_frame header capacity payload = do
  head ← encode_frame_header header (some capacity)
  ok (record { stored = head.stored ++ payload; count = head.count + length payload })

-- `EncodeFrame`. The payload's length is cut to a `ULONG` where it is compared.
pub encode_frame : FrameHeader → Buffer → Option ℕ → Result Written
encode_frame header payload none = err invalid_parameter
encode_frame header payload (some capacity) = do
  refuse (is_missing payload) invalid_parameter
  refuse (not (header.length_ == buffer_length payload % 2 ^ 32)) invalid_parameter
  refuse (ltb capacity ((frame_header_length + buffer_length payload) % 2 ^ 64)) buffer_too_small
  finish_frame header capacity (contents payload)

-- `EncodeWindowUpdate`.
pub encode_window_update : ℕ → ℕ → Option ℕ → Result Written
encode_window_update stream_id increment none = err invalid_parameter
encode_window_update stream_id increment (some capacity) = do
  refuse (increment == 0 || ltb max_window_size increment) invalid_parameter
  refuse (ltb capacity (frame_header_length + 4)) buffer_too_small
  finish_frame (record { length_ = 4; type_ = window_update; flags = 0; stream_id = stream_id })
      capacity (write_uint32_be (low_bits increment 31))

-- `DecodeWindowUpdatePayload`.
pub decode_window_update_payload : Buffer → Result ℕ
decode_window_update_payload (null n) = err invalid_parameter
decode_window_update_payload (bytes payload) = do
  refuse (not (length payload == 4)) invalid_network_response
  let increment = low_bits (read_uint32_be payload 0) 31
  refuse (increment == 0) invalid_network_response
  ok increment

-- `EncodePing`, on its eight opaque bytes.
pub encode_ping : Buffer → Bool → Option ℕ → Result Written
encode_ping opaque ack none = err invalid_parameter
encode_ping (null n) ack (some capacity) = err invalid_parameter
encode_ping (bytes opaque) ack (some capacity) = do
  refuse (ltb capacity (frame_header_length + 8)) buffer_too_small
  finish_frame
      (record { length_ = 8; type_ = ping; flags = (if ack then flag_ack else 0); stream_id = 0 })
      capacity (take 8 opaque)

-- `EncodeGoAway`.
pub encode_goaway : ℕ → ℕ → Option ℕ → Result Written
encode_goaway last_stream_id error_code none = err invalid_parameter
encode_goaway last_stream_id error_code (some capacity) = do
  refuse (ltb capacity (frame_header_length + 8)) buffer_too_small
  finish_frame (record { length_ = 8; type_ = goaway; flags = 0; stream_id = 0 }) capacity
      (write_uint32_be (low_bits last_stream_id 31) ++ write_uint32_be error_code)

-- `DecodeGoAwayPayload`: the last stream and the error code.
pub decode_goaway_payload : Buffer → Result (ℕ × ℕ)
decode_goaway_payload (null n) = err invalid_network_response
decode_goaway_payload (bytes payload) = do
  refuse (ltb (length payload) 8) invalid_network_response
  ok (low_bits (read_uint32_be payload 0) 31, read_uint32_be payload 4)

-- `EncodeRstStream`.
pub encode_rst_stream : ℕ → ℕ → Option ℕ → Result Written
encode_rst_stream stream_id error_code none = err invalid_parameter
encode_rst_stream stream_id error_code (some capacity) = do
  refuse (stream_id == 0) invalid_parameter
  refuse (ltb capacity (frame_header_length + 4)) buffer_too_small
  finish_frame (record { length_ = 4; type_ = rst_stream; flags = 0; stream_id = stream_id })
      capacity (write_uint32_be error_code)

-- `DecodeRstStreamPayload`.
pub decode_rst_stream_payload : Buffer → Result ℕ
decode_rst_stream_payload (null n) = err invalid_parameter
decode_rst_stream_payload (bytes payload) = do
  refuse (not (length payload == 4)) invalid_network_response
  ok (read_uint32_be payload 0)

-- The tests that `EncodeHeaders`, `EncodeContinuation` and `EncodeData` make in the same order,
-- and the frame that they write. The length is at most 2^24, so no sum wraps.
abbrev pub encode_block : FrameType → ℕ → ℕ → Buffer → ℕ → Result Written
encode_block type flags stream_id block capacity = do
  refuse (stream_id == 0) invalid_parameter
  refuse (is_missing block) invalid_parameter
  refuse (ltb max_allowed_frame_size (buffer_length block)) invalid_parameter
  refuse (ltb capacity (frame_header_length + buffer_length block)) buffer_too_small
  finish_frame
      (record { length_ = buffer_length block; type_ = type; flags = flags; stream_id = stream_id })
      capacity (contents block)

-- `EncodeHeaders`.
pub encode_headers : ℕ → Buffer → Bool → Bool → Option ℕ → Result Written
encode_headers stream_id block end_stream end_headers none = err invalid_parameter
encode_headers stream_id block end_stream end_headers (some capacity) =
    encode_block headers
      ((if end_stream then flag_end_stream else 0) + (if end_headers then flag_end_headers else 0))
      stream_id block capacity

-- `EncodeContinuation`.
pub encode_continuation : ℕ → Buffer → Bool → Option ℕ → Result Written
encode_continuation stream_id block end_headers none = err invalid_parameter
encode_continuation stream_id block end_headers (some capacity) =
    encode_block continuation (if end_headers then flag_end_headers else 0) stream_id block capacity

-- `EncodeData`.
pub encode_data : ℕ → Buffer → Bool → Option ℕ → Result Written
encode_data stream_id block end_stream none = err invalid_parameter
encode_data stream_id block end_stream (some capacity) =
    encode_block data_ (if end_stream then flag_end_stream else 0) stream_id block capacity

-- `StripPadding`: the content that is left of a DATA or HEADERS payload.
pub strip_padding : ℕ → Buffer → Result Buffer
strip_padding flags payload = do
  refuse (is_missing payload) invalid_parameter
  if not (has_bit flags padded_bit) then ok payload else do
    refuse (ltb (buffer_length payload) 1) invalid_network_response
    let pad = byte_at (contents payload) 0
    refuse (leb (buffer_length payload) pad) invalid_network_response
    ok (bytes (take (buffer_length payload - 1 - pad) (drop 1 (contents payload))))

-- `StripPriority`, over the five bytes of the priority field.
pub strip_priority : ℕ → Buffer → Result Buffer
strip_priority flags payload = do
  refuse (is_missing payload) invalid_parameter
  if not (has_bit flags priority_bit) then ok payload else do
    refuse (ltb (buffer_length payload) 5) invalid_network_response
    ok (bytes (drop 5 (contents payload)))
