-- ===== src/Http2/Frame/Settings.antt =====
-- SETTINGS frames: Http2Settings of include/KernelHttp/http2/Http2Frame.h, and EncodeSettings,
-- EncodeSettingsAck and DecodeSettingsPayload of src/KernelHttpLib/http2/Http2Frame.cpp.
use win_kernel_http.Common.{
  ℕ, List, [], ◌∷◌, ◌++◌, ◌+◌, ◌-◌, ◌*◌, ◌/◌, ◌%◌, ◌^◌, ◌≤◌, ◌<◌, Bool, true, false, not, ◌&&◌,
  ◌||◌, ltb, leb, ◌==◌, if◌then◌else◌, Option, none, some, length, take, drop,
}
use win_kernel_http.Common.Buffer.{
  Bytes, Buffer, null, bytes, buffer_length, is_missing, contents, Written,
}
use win_kernel_http.Common.Status.{
  Status, invalid_parameter, buffer_too_small, invalid_network_response, Result, ok, err, ◌>>=◌,
  ◌>>◌, refuse,
}
use win_kernel_http.Http2.Wire.{write_uint16_be, write_uint32_be, read_uint16_be, read_uint32_be}
use win_kernel_http.Http2.Frame.{
  frame_header_length, FrameHeader, settings, flag_ack, encode_frame_header, max_allowed_frame_size,
  max_window_size,
}
pub mod Laws

abbrev pub default_max_frame_size : ℕ
default_max_frame_size = 16384

pub record Settings : Type 0 where
  pub header_table_size : ℕ
  pub enable_push : ℕ
  pub max_concurrent_streams : ℕ
  pub initial_window_size : ℕ
  pub max_frame_size : ℕ
  pub max_header_list_size : ℕ
  pub enable_connect_protocol : ℕ

-- The member initialisers of `Http2Settings`.
abbrev pub default_settings : Settings
default_settings = record {
  header_table_size = 4096;
  enable_push = 0;
  max_concurrent_streams = 100;
  initial_window_size = 65535;
  max_frame_size = 16384;
  max_header_list_size = 65536;
  enable_connect_protocol = 0;
}

-- The enumerators of `Http2SettingId`.
abbrev pub header_table_size_id : ℕ
header_table_size_id = 1

abbrev pub enable_push_id : ℕ
enable_push_id = 2

abbrev pub max_concurrent_streams_id : ℕ
max_concurrent_streams_id = 3

abbrev pub initial_window_size_id : ℕ
initial_window_size_id = 4

abbrev pub max_frame_size_id : ℕ
max_frame_size_id = 5

abbrev pub max_header_list_size_id : ℕ
max_header_list_size_id = 6

abbrev pub enable_connect_protocol_id : ℕ
enable_connect_protocol_id = 8

-- `writeSetting`: the identifier, then the value.
abbrev pub write_setting : ℕ → ℕ → Bytes
write_setting id value = write_uint16_be id ++ write_uint32_be value

-- The seven settings in the order of `EncodeSettings`.
pub settings_payload : Settings → Bytes
settings_payload s =
    write_setting header_table_size_id s.header_table_size
    ++ (write_setting enable_push_id s.enable_push
        ++ (write_setting max_concurrent_streams_id s.max_concurrent_streams
            ++ (write_setting initial_window_size_id s.initial_window_size
                ++ (write_setting max_frame_size_id s.max_frame_size
                    ++ (write_setting max_header_list_size_id s.max_header_list_size
                        ++ write_setting enable_connect_protocol_id s.enable_connect_protocol)))))

-- `EncodeSettings`: `offset` is the sum of what was written.
pub encode_settings : Settings → Option ℕ → Result Written
encode_settings s none = err invalid_parameter
encode_settings s (some capacity) = do
  refuse (ltb capacity (frame_header_length + 7 * 6)) buffer_too_small
  head ←
      encode_frame_header (record { length_ = 7 * 6; type_ = settings; flags = 0; stream_id = 0 })
        (some capacity)
  ok (record {
    stored = head.stored ++ settings_payload s;
    count = head.count + length (settings_payload s);
  })

-- `EncodeSettingsAck`.
pub encode_settings_ack : Option ℕ → Result Written
encode_settings_ack none = err invalid_parameter
encode_settings_ack (some capacity) = do
  refuse (ltb capacity frame_header_length) buffer_too_small
  encode_frame_header (record { length_ = 0; type_ = settings; flags = flag_ack; stream_id = 0 })
      (some capacity)

-- The switch of `DecodeSettingsPayload` on one pair.
pub apply_setting : ℕ → ℕ → Settings → Result Settings
apply_setting id value s =
    if id == header_table_size_id
    then ok (record s { header_table_size = value })
    else if id == enable_push_id
    then (if ltb 1 value
        then err invalid_network_response
        else ok (record s { enable_push = value }))
    else if id == max_concurrent_streams_id
    then ok (record s { max_concurrent_streams = value })
    else if id == initial_window_size_id
    then (if ltb max_window_size value
        then err invalid_network_response
        else ok (record s { initial_window_size = value }))
    else if id == max_frame_size_id
    then (if ltb value default_max_frame_size || ltb max_allowed_frame_size value
        then err invalid_network_response
        else ok (record s { max_frame_size = value }))
    else if id == max_header_list_size_id
    then ok (record s { max_header_list_size = value })
    else if id == enable_connect_protocol_id
    then (if ltb 1 value
        then err invalid_network_response
        else ok (record s { enable_connect_protocol = value }))
    else ok s

-- The loop over the pairs. `settings` is an in-out parameter: where a value is refused, the pairs
-- before it have been stored, so the state comes back beside the status (`none` is
-- STATUS_SUCCESS). The list is what stands from `offset` on; the length is a multiple of six.
pub settings_loop : Bytes → Settings → Settings × Option Status
settings_loop (a ∷ b ∷ c ∷ d ∷ e ∷ f ∷ rest) s =
    elim (apply_setting (read_uint16_be (a ∷ b ∷ []) 0) (read_uint32_be (c ∷ d ∷ e ∷ f ∷ []) 0) s) [
      | ok s' ↦ settings_loop rest s'
      | err status ↦ (s, some status)
    ]
settings_loop _ s = (s, none)

-- `DecodeSettingsPayload`; the null test of `settings` itself is left out, as it is given here.
pub decode_settings_payload : Buffer → Settings → Settings × Option Status
decode_settings_payload payload s =
    if is_missing payload
    then (s, some invalid_parameter)
    else if not (buffer_length payload % 6 == 0)
    then (s, some invalid_network_response)
    else settings_loop (contents payload) s
