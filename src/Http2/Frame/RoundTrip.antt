-- ===== src/Http2/Frame/RoundTrip.antt =====
-- What the encoders of src/KernelHttpLib/http2/Http2Frame.cpp write, as its decoders read it.
use win_kernel_http.Common.{
  ℕ, ◌++◌, ◌+◌, ◌%◌, ◌^◌, ◌≤◌, ◌<◌, ◌≡◌, refl, sym, arith, Bool, if◌then◌else◌, some, length, take,
  take-length,
}
use win_kernel_http.Common.Buffer.{Bytes, bytes, low_bits, IsByte, IsUlong}
use win_kernel_http.Common.Status.{ok}
use win_kernel_http.Http2.Wire.{write_uint32_be, read_uint32_be}
use win_kernel_http.Http2.Frame.{
  max_allowed_frame_size, max_window_size, FrameType, data_, headers, rst_stream, ping, goaway,
  window_update, continuation, FrameHeader, encode_frame, encode_window_update,
  decode_window_update_payload, encode_ping, encode_goaway, decode_goaway_payload,
  encode_rst_stream, decode_rst_stream_payload, encode_block, encode_headers, encode_continuation,
  encode_data,
}
use win_kernel_http.Http2.Frame.Layout.{IsType, IsHeader, finish_frame-IsFrame, Writes}

-- For a header that fits its fields and announces the length of the payload, and room for both,
-- `EncodeFrame` writes the frame of the header and the payload.
pub encode_frame-Writes :
    (h : FrameHeader) (payload : Bytes) (capacity : ℕ)
    → IsHeader h
    → h.length_ ≡ length payload
    → 9 + length payload ≤ capacity
    → Writes (encode_frame h (bytes payload) (some capacity)) h payload capacity
unfolding encode_frame
encode_frame-Writes h payload capacity v l c =
    let (w, e, f) = finish_frame-IsFrame h payload capacity v l c in (w, ground (arith, v), f)

abbrev block_header : FrameType → ℕ → ℕ → Bytes → FrameHeader
block_header type flags stream_id block = record {
  length_ = length block;
  type_ = type;
  flags = flags;
  stream_id = stream_id;
}

encode_block-Writes :
    (type : FrameType) (flags stream_id : ℕ) (block : Bytes) (capacity : ℕ)
    → IsType type
    → IsByte flags
    → 0 < stream_id
    → stream_id < 2 ^ 31
    → length block ≤ max_allowed_frame_size
    → 9 + length block ≤ capacity
    → Writes
        (encode_block type flags stream_id (bytes block) capacity)
        (block_header type flags stream_id block)
        block
        capacity
encode_block-Writes type flags stream_id block capacity t f p s l c =
    let v : IsHeader (block_header type flags stream_id block) = record {
      length_fits = l;
      type_fits = t;
      flags_fit = f;
      stream_fits = s;
    } in
    let (w, e, frame) =
      finish_frame-IsFrame (block_header type flags stream_id block) block capacity v refl c in
    (w, ground arith, frame)

-- On a stream from 1 to 2^31 - 1, with a block of at most 2^24 - 1 bytes and room for it,
-- `EncodeHeaders`, `EncodeContinuation` and `EncodeData` each write the frame of their type, with
-- the block as payload and END_STREAM and END_HEADERS set as asked.
pub encode_blocks-Writes :
    (stream_id : ℕ) (block : Bytes) (end_stream end_headers : Bool) (capacity : ℕ)
    → 0 < stream_id
    → stream_id < 2 ^ 31
    → length block ≤ max_allowed_frame_size
    → 9 + length block ≤ capacity
    → Writes
        (encode_headers stream_id (bytes block) end_stream end_headers (some capacity))
        (record {
          length_ = length block;
          type_ = headers;
          flags = (if end_stream then 1 else 0) + (if end_headers then 4 else 0);
          stream_id = stream_id;
        })
        block
        capacity
      × Writes
          (encode_continuation stream_id (bytes block) end_headers (some capacity))
          (record {
            length_ = length block;
            type_ = continuation;
            flags = (if end_headers then 4 else 0);
            stream_id = stream_id;
          })
          block
          capacity
      × Writes
          (encode_data stream_id (bytes block) end_stream (some capacity))
          (record {
            length_ = length block;
            type_ = data_;
            flags = (if end_stream then 1 else 0);
            stream_id = stream_id;
          })
          block
          capacity
unfolding encode_headers encode_continuation encode_data
encode_blocks-Writes stream_id block end_stream end_headers capacity p s l c = (
  encode_block-Writes headers _ stream_id block capacity tt (ground arith) p s l c,
  encode_block-Writes continuation _ stream_id block capacity tt (ground arith) p s l c,
  encode_block-Writes data_ _ stream_id block capacity tt (ground arith) p s l c,
)

-- On stream 0 to 2^31 - 1, with room for 13 bytes, every increment from 1 to 2^31 - 1 is written as
-- a WINDOW_UPDATE frame whose payload decodes to it.
pub window_update_round_trip :
    (stream_id increment capacity : ℕ)
    → stream_id < 2 ^ 31
    → 0 < increment
    → increment ≤ max_window_size
    → 13 ≤ capacity
    → (payload : Bytes) × Writes
        (encode_window_update stream_id increment (some capacity))
        (record { length_ = 4; type_ = window_update; flags = 0; stream_id = stream_id })
        payload
        capacity
      × (decode_window_update_payload (bytes payload) ≡ ok increment)
unfolding encode_window_update
window_update_round_trip stream_id increment capacity s p q c =
    let h : FrameHeader = record {
      length_ = 4;
      type_ = window_update;
      flags = 0;
      stream_id = stream_id;
    } in
    let payload : Bytes = write_uint32_be (low_bits increment 31) in
    let (w, e, f) =
      finish_frame-IsFrame h payload capacity
        (record {
          length_fits = omega arith;
          type_fits = tt;
          flags_fit = omega arith;
          stream_fits = s;
        })
        (unfold write_uint32_be in refl) (unfold write_uint32_be in omega arith) in
    (
      payload,
      (w, ground arith, f),
      unfold decode_window_update_payload write_uint32_be read_uint32_be in ground arith,
    )

-- On stream 1 to 2^31 - 1, with room for 13 bytes, every 32-bit error code is written as a
-- RST_STREAM frame whose payload decodes to it.
pub rst_stream_round_trip :
    (stream_id error_code capacity : ℕ)
    → 0 < stream_id
    → stream_id < 2 ^ 31
    → IsUlong error_code
    → 13 ≤ capacity
    → (payload : Bytes) × Writes
        (encode_rst_stream stream_id error_code (some capacity))
        (record { length_ = 4; type_ = rst_stream; flags = 0; stream_id = stream_id })
        payload
        capacity
      × (decode_rst_stream_payload (bytes payload) ≡ ok error_code)
unfolding encode_rst_stream
rst_stream_round_trip stream_id error_code capacity p s u c =
    let h : FrameHeader = record {
      length_ = 4;
      type_ = rst_stream;
      flags = 0;
      stream_id = stream_id;
    } in
    let payload : Bytes = write_uint32_be error_code in
    let (w, e, f) =
      finish_frame-IsFrame h payload capacity
        (record {
          length_fits = omega arith;
          type_fits = tt;
          flags_fit = omega arith;
          stream_fits = s;
        })
        (unfold write_uint32_be in refl) (unfold write_uint32_be in omega arith) in
    (
      payload,
      (w, ground arith, f),
      unfold decode_rst_stream_payload write_uint32_be read_uint32_be in ground arith,
    )

-- With room for 17 bytes, `EncodeGoAway` writes a GOAWAY frame whose payload, with any debug data
-- behind it, decodes to the last stream, less its reserved bit, and the error code, both 32 bits
-- wide.
pub goaway_round_trip :
    (last_stream_id error_code capacity : ℕ)
    → IsUlong last_stream_id
    → IsUlong error_code
    → 17 ≤ capacity
    → (payload : Bytes) × Writes
        (encode_goaway last_stream_id error_code (some capacity))
        (record { length_ = 8; type_ = goaway; flags = 0; stream_id = 0 })
        payload
        capacity
      × ((debug : Bytes)
          → decode_goaway_payload (bytes (payload ++ debug))
            ≡ ok (last_stream_id % 2 ^ 31, error_code))
unfolding encode_goaway
goaway_round_trip last_stream_id error_code capacity u v c =
    let h : FrameHeader = record { length_ = 8; type_ = goaway; flags = 0; stream_id = 0 } in
    let payload : Bytes =
      write_uint32_be (low_bits last_stream_id 31) ++ write_uint32_be error_code in
    let (w, e, f) =
      finish_frame-IsFrame h payload capacity
        (record {
          length_fits = omega arith;
          type_fits = tt;
          flags_fit = omega arith;
          stream_fits = omega arith;
        })
        (unfold write_uint32_be in refl) (unfold write_uint32_be in omega arith) in
    (
      payload,
      (w, ground arith, f),
      λ debug. unfold decode_goaway_payload write_uint32_be read_uint32_be in ground arith,
    )

-- On eight opaque bytes, with room for 17, `EncodePing` writes a PING frame on stream 0 with those
-- bytes as payload and ACK set as asked.
pub encode_ping-Writes :
    (opaque : Bytes) (ack : Bool) (capacity : ℕ)
    → length opaque ≡ 8
    → 17 ≤ capacity
    → Writes
        (encode_ping (bytes opaque) ack (some capacity))
        (record { length_ = 8; type_ = ping; flags = (if ack then 1 else 0); stream_id = 0 })
        opaque
        capacity
unfolding encode_ping
encode_ping-Writes opaque ack capacity l c =
    let h : FrameHeader = record {
      length_ = 8;
      type_ = ping;
      flags = (if ack then 1 else 0);
      stream_id = 0;
    } in
    let whole : take 8 opaque ≡ opaque = rw (← l) (take-length opaque) in
    let (w, e, f) =
      finish_frame-IsFrame h opaque capacity
        (record {
          length_fits = omega arith;
          type_fits = tt;
          flags_fit = ground arith;
          stream_fits = omega arith;
        })
        (sym l) (omega arith) in
    (w, ground arith, f)
