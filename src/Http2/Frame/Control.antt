-- ===== src/Http2/Frame/Control.antt =====
-- The frames of fixed size of src/KernelHttpLib/http2/Http2Frame.cpp, together.
use win_kernel_http.Common.{
  ℕ, [], ◌++◌, ◌%◌, ◌^◌, ◌≤◌, ◌<◌, ◌≡◌, Bool, some, length, arith, if◌then◌else◌,
}
use win_kernel_http.Common.Buffer.{Bytes, bytes, IsUlong}
use win_kernel_http.Common.Status.{ok}
use win_kernel_http.Http2.Frame.{
  settings, ping, goaway, window_update, rst_stream, max_window_size, encode_ping,
  encode_window_update, decode_window_update_payload, encode_rst_stream, decode_rst_stream_payload,
  encode_goaway, decode_goaway_payload,
}
use win_kernel_http.Http2.Frame.Layout.{Writes}
use win_kernel_http.Http2.Frame.RoundTrip.{
  window_update_round_trip, rst_stream_round_trip, goaway_round_trip, encode_ping-Writes,
}
use win_kernel_http.Http2.Frame.Settings.{encode_settings_ack}
use win_kernel_http.Http2.Frame.Settings.Laws.{encode_settings_ack-Writes}

-- For a stream from 1 to 2^31 - 1, an increment from 1 to 2^31 - 1, 32-bit error code and last
-- stream, eight opaque bytes and room for 17 bytes, each of the encoders of WINDOW_UPDATE,
-- RST_STREAM, GOAWAY, PING and the acknowledgement of SETTINGS writes its frame in full; the
-- payloads of the first three decode to the increment, to the error code, and to the last stream
-- less its reserved bit with the error code, whatever debug data follows.
pub control_frames_round_trip :
    (stream_id increment error_code last_stream_id capacity : ℕ) (opaque : Bytes) (ack : Bool)
    → 0 < stream_id
    → stream_id < 2 ^ 31
    → 0 < increment
    → increment ≤ max_window_size
    → IsUlong error_code
    → IsUlong last_stream_id
    → length opaque ≡ 8
    → 17 ≤ capacity
    → ((payload : Bytes) × Writes
          (encode_window_update stream_id increment (some capacity))
          (record { length_ = 4; type_ = window_update; flags = 0; stream_id = stream_id })
          payload
          capacity
        × (decode_window_update_payload (bytes payload) ≡ ok increment))
      × ((payload : Bytes) × Writes
            (encode_rst_stream stream_id error_code (some capacity))
            (record { length_ = 4; type_ = rst_stream; flags = 0; stream_id = stream_id })
            payload
            capacity
          × (decode_rst_stream_payload (bytes payload) ≡ ok error_code))
      × ((payload : Bytes) × Writes
            (encode_goaway last_stream_id error_code (some capacity))
            (record { length_ = 8; type_ = goaway; flags = 0; stream_id = 0 })
            payload
            capacity
          × ((debug : Bytes)
              → decode_goaway_payload (bytes (payload ++ debug))
                ≡ ok (last_stream_id % 2 ^ 31, error_code)))
      × Writes
          (encode_ping (bytes opaque) ack (some capacity))
          (record { length_ = 8; type_ = ping; flags = (if ack then 1 else 0); stream_id = 0 })
          opaque
          capacity
      × Writes
          (encode_settings_ack (some capacity))
          (record { length_ = 0; type_ = settings; flags = 1; stream_id = 0 })
          []
          capacity
control_frames_round_trip stream_id increment error_code last_stream_id capacity opaque ack p s i m
      e l o c =
    (
      window_update_round_trip stream_id increment capacity s i m (omega arith),
      rst_stream_round_trip stream_id error_code capacity p s e (omega arith),
      goaway_round_trip last_stream_id error_code capacity l e c,
      encode_ping-Writes opaque ack capacity o c,
      encode_settings_ack-Writes capacity (omega arith),
    )
