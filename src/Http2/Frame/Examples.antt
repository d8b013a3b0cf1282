-- ===== src/Http2/Frame/Examples.antt =====
-- Concrete frames for src/KernelHttpLib/http2/Http2Frame.cpp.
use win_kernel_http.Common.{length, [], ◌∷◌, ◌++◌, ◌%◌, ◌^◌, ◌≡◌, refl, true, none, some, arith}
use win_kernel_http.Common.Base64.{decode_base64}
use win_kernel_http.Common.Buffer.{Bytes, bytes}
use win_kernel_http.Common.Status.{ok}
use win_kernel_http.Http2.Frame.{
  data_, headers, continuation, settings, ping, goaway, window_update, rst_stream, encode_headers,
  encode_continuation, encode_data, encode_ping, encode_window_update, decode_window_update_payload,
  encode_rst_stream, decode_rst_stream_payload, encode_goaway, decode_goaway_payload,
}
use win_kernel_http.Http2.Frame.Base64Url.{
  encode_settings_payload_base64_url, upgrade_settings_round_trip,
}
use win_kernel_http.Http2.Frame.Control.{control_frames_round_trip}
use win_kernel_http.Http2.Frame.Layout.{Writes}
use win_kernel_http.Http2.Frame.RoundTrip.{encode_blocks-Writes}
use win_kernel_http.Http2.Frame.Settings.{
  encode_settings_ack, Settings, default_settings, settings_payload, encode_settings,
  decode_settings_payload,
}
use win_kernel_http.Http2.Frame.Settings.Laws.{
  IsSettings, decode_settings_payload-IsSettings, settings_round_trip,
}

abbrev three_bytes : Bytes
three_bytes = 1 ∷ 2 ∷ 3 ∷ []

encode_blocks-Writes_example :
    Writes
      (encode_headers 5 (bytes three_bytes) true true (some 12))
      (record { length_ = 3; type_ = headers; flags = 5; stream_id = 5 })
      three_bytes
      12
    × Writes
        (encode_continuation 5 (bytes three_bytes) true (some 12))
        (record { length_ = 3; type_ = continuation; flags = 4; stream_id = 5 })
        three_bytes
        12
    × Writes
        (encode_data 5 (bytes three_bytes) true (some 12))
        (record { length_ = 3; type_ = data_; flags = 1; stream_id = 5 })
        three_bytes
        12
encode_blocks-Writes_example =
    encode_blocks-Writes 5 three_bytes true true 12 (omega arith) (omega arith) (omega arith)
      (omega arith)

abbrev eight_bytes : Bytes
eight_bytes = 1 ∷ 2 ∷ 3 ∷ 4 ∷ 5 ∷ 6 ∷ 7 ∷ 8 ∷ []

abbrev padded : Bytes
padded = 2 ∷ 10 ∷ 11 ∷ 0 ∷ 0 ∷ []

default_settings-IsSettings : IsSettings default_settings
default_settings-IsSettings = record {
  table_fits = omega arith;
  push_flag = omega arith;
  streams_fit = omega arith;
  window_fits = omega arith;
  frame_low = omega arith;
  frame_high = omega arith;
  list_fits = omega arith;
  connect_flag = omega arith;
}

-- ENABLE_PUSH set to 2, which is refused.
abbrev bad_push : Bytes
bad_push = 0 ∷ 2 ∷ 0 ∷ 0 ∷ 0 ∷ 2 ∷ []

decode_settings_payload-IsSettings_example :
    IsSettings (decode_settings_payload (bytes bad_push) default_settings).0
decode_settings_payload-IsSettings_example =
    decode_settings_payload-IsSettings bad_push default_settings (omega arith)
      default_settings-IsSettings

abbrev other_settings : Settings
other_settings = record default_settings {
  header_table_size = 0;
  initial_window_size = 1;
  max_frame_size = 20000;
}

settings_round_trip_example :
    Writes
      (encode_settings default_settings (some 51))
      (record { length_ = 42; type_ = settings; flags = 0; stream_id = 0 })
      (settings_payload default_settings)
      51
    × (decode_settings_payload (bytes (settings_payload default_settings)) other_settings
        ≡ (default_settings, none))
settings_round_trip_example =
    settings_round_trip default_settings other_settings 51 default_settings-IsSettings (omega arith)

upgrade_settings_round_trip_example :
    (text : Bytes) × (encode_settings_payload_base64_url true default_settings (some 56) ≡ ok text)
    × (length text ≡ 56)
    × (decode_settings_payload (bytes (decode_base64 b'-' text)) other_settings
        ≡ (default_settings, none))
upgrade_settings_round_trip_example =
    upgrade_settings_round_trip default_settings other_settings 56 default_settings-IsSettings
      (omega arith)

control_frames_round_trip_example :
    ((payload : Bytes) × Writes
        (encode_window_update 5 1000 (some 17))
        (record { length_ = 4; type_ = window_update; flags = 0; stream_id = 5 })
        payload
        17
      × (decode_window_update_payload (bytes payload) ≡ ok 1000))
    × ((payload : Bytes) × Writes
          (encode_rst_stream 5 8 (some 17))
          (record { length_ = 4; type_ = rst_stream; flags = 0; stream_id = 5 })
          payload
          17
        × (decode_rst_stream_payload (bytes payload) ≡ ok 8))
    × ((payload : Bytes) × Writes
          (encode_goaway 7 8 (some 17))
          (record { length_ = 8; type_ = goaway; flags = 0; stream_id = 0 })
          payload
          17
        × ((debug : Bytes) → decode_goaway_payload (bytes (payload ++ debug)) ≡ ok (7 % 2 ^ 31, 8)))
    × Writes
        (encode_ping (bytes eight_bytes) true (some 17))
        (record { length_ = 8; type_ = ping; flags = 1; stream_id = 0 })
        eight_bytes
        17
    × Writes
        (encode_settings_ack (some 17))
        (record { length_ = 0; type_ = settings; flags = 1; stream_id = 0 })
        []
        17
control_frames_round_trip_example =
    control_frames_round_trip 5 1000 8 7 17 eight_bytes true (omega arith) (omega arith)
      (omega arith) (omega arith) (omega arith) (omega arith) refl (omega arith)
