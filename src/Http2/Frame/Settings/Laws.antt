-- ===== src/Http2/Frame/Settings/Laws.antt =====
-- What DecodeSettingsPayload of src/KernelHttpLib/http2/Http2Frame.cpp does with the payload that
-- EncodeSettings writes, and with any other.
use win_kernel_http.Common.{
  ℕ, [], ◌∷◌, ◌++◌, ◌^◌, ◌≤◌, ◌<◌, ◌≡◌, refl, sym, ◌∙◌, Option, none, some, length, arith, All, inl,
  inr,
}
use win_kernel_http.Common.Buffer.{Bytes, IsByte, IsUlong, bytes}
use win_kernel_http.Common.Status.{Status, Result, ok, err, Result-cases}
use win_kernel_http.Http2.Wire.{write_uint16_be, write_uint32_be, read_uint16_be, read_uint32_be}
use win_kernel_http.Http2.Frame.{FrameHeader, settings, max_allowed_frame_size, max_window_size}
use win_kernel_http.Http2.Frame.Layout.{
  IsHeader, Writes, finish_frame-IsFrame, encode_frame_header-IsFrame,
}
use win_kernel_http.Http2.Frame.Settings.{
  encode_settings_ack, Settings, header_table_size_id, enable_push_id, max_concurrent_streams_id,
  initial_window_size_id, max_frame_size_id, max_header_list_size_id, enable_connect_protocol_id,
  write_setting, settings_payload, encode_settings, apply_setting, settings_loop,
  decode_settings_payload, default_max_frame_size,
}

-- The values that RFC 9113 and RFC 8441 allow.
pub record IsSettings (s : Settings) : Type 0 where
  pub table_fits : IsUlong s.header_table_size
  pub push_flag : s.enable_push ≤ 1
  pub streams_fit : IsUlong s.max_concurrent_streams
  pub window_fits : s.initial_window_size ≤ max_window_size
  pub frame_low : default_max_frame_size ≤ s.max_frame_size
  pub frame_high : s.max_frame_size ≤ max_allowed_frame_size
  pub list_fits : IsUlong s.max_header_list_size
  pub connect_flag : s.enable_connect_protocol ≤ 1

apply_setting-IsSettings :
    (id value : ℕ) (s : Settings) {t : Settings}
    → IsUlong value
    → IsSettings s
    → apply_setting id value s ≡ ok t
    → IsSettings t
unfolding apply_setting
apply_setting-IsSettings id value s u v e = ground (arith, v)

-- One round of the loop, on the outcome of its switch.
abbrev loop_after : Result Settings → Bytes → Settings → Settings × Option Status
loop_after (ok t) rest s = settings_loop rest t
loop_after (err status) rest s = (s, some status)

abbrev first_setting : ℕ → ℕ → ℕ → ℕ → ℕ → ℕ → Settings → Result Settings
first_setting a b c d e f =
    apply_setting (read_uint16_be (a ∷ b ∷ []) 0) (read_uint32_be (c ∷ d ∷ e ∷ f ∷ []) 0)

settings_loop_step :
    (a b c d e f : ℕ) (rest : Bytes) (s : Settings)
    → settings_loop (a ∷ b ∷ c ∷ d ∷ e ∷ f ∷ rest) s
      ≡ loop_after (first_setting a b c d e f s) rest s
unfolding settings_loop
settings_loop_step a b c d e f rest s = elim (Result-cases (first_setting a b c d e f s)) [
  | inl (t, r) ↦ rw (r, settings_loop)
  | inr (x, r) ↦ rw (r, settings_loop)
]

loop_after-IsSettings :
    (r : Result Settings) (rest : Bytes) (s : Settings)
    → IsSettings s
    → ((t : Settings) → r ≡ ok t → IsSettings (settings_loop rest t).0)
    → IsSettings (loop_after r rest s).0
loop_after-IsSettings (ok t) rest s v ih = ih t refl
loop_after-IsSettings (err x) rest s v ih = v

read_uint32_be-IsUlong :
    (c d e f : ℕ)
    → IsByte c × IsByte d × IsByte e × IsByte f
    → IsUlong (read_uint32_be (c ∷ d ∷ e ∷ f ∷ []) 0)
unfolding read_uint32_be
read_uint32_be-IsUlong c d e f h = omega arith

settings_loop-IsSettings :
    (payload : Bytes) (s : Settings)
    → All IsByte payload
    → IsSettings s
    → IsSettings (settings_loop payload s).0
settings_loop-IsSettings (a ∷ b ∷ c ∷ d ∷ e ∷ f ∷ rest) s h v =
    rw (settings_loop_step a b c d e f rest s) (
      loop_after-IsSettings _ rest s v λ t r. settings_loop-IsSettings rest t h.1.1.1.1.1.1 (
        apply_setting-IsSettings _ (read_uint32_be (c ∷ d ∷ e ∷ f ∷ []) 0) s
          (read_uint32_be-IsUlong c d e f (h.1.1.0, h.1.1.1.0, h.1.1.1.1.0, h.1.1.1.1.1.0)) v r))
settings_loop-IsSettings _ s h v = unfold settings_loop in v

-- On any payload of bytes, accepted or refused half way, settings that were within the limits of
-- the protocol are within them after `DecodeSettingsPayload`.
pub decode_settings_payload-IsSettings :
    (payload : Bytes) (s : Settings)
    → All IsByte payload
    → IsSettings s
    → IsSettings (decode_settings_payload (bytes payload) s).0
unfolding decode_settings_payload
decode_settings_payload-IsSettings payload s h v =
    ground (arith, v, settings_loop-IsSettings payload s h v)

-- One written pair is one round of the loop.
settings_loop-write_setting :
    (id value : ℕ) (rest : Bytes) (s t : Settings)
    → id < 2 ^ 16
    → IsUlong value
    → apply_setting id value s ≡ ok t
    → settings_loop (write_setting id value ++ rest) s ≡ settings_loop rest t
unfolding settings_loop write_uint16_be write_uint32_be
settings_loop-write_setting id value rest s t u v e =
    settings_loop_step _ _ _ _ _ _ rest s ∙ rw (read, loop_after)
  where
    low : read_uint16_be (write_uint16_be id) 0 ≡ id
    low = unfold read_uint16_be in omega arith

    high : read_uint32_be (write_uint32_be value) 0 ≡ value
    high = unfold read_uint32_be in omega arith

    read :
        apply_setting
          (read_uint16_be (write_uint16_be id) 0)
          (read_uint32_be (write_uint32_be value) 0)
          s
        ≡ ok t
    read = rw (low, high) e

pub length-settings_payload : (s : Settings) → length (settings_payload s) ≡ 42
unfolding settings_payload write_uint16_be write_uint32_be
length-settings_payload s = refl

pub settings_payload-IsByte : (s : Settings) → All IsByte (settings_payload s)
unfolding settings_payload write_uint16_be write_uint32_be
settings_payload-IsByte s = omega arith

-- The seven rounds of the loop on what `EncodeSettings` writes.
settings_loop-settings_payload :
    (s before : Settings) → IsSettings s → settings_loop (settings_payload s) before ≡ (s, none)
unfolding settings_payload
settings_loop-settings_payload s before v =
    let s1 = record before { header_table_size = s.header_table_size } in
    let s2 = record s1 { enable_push = s.enable_push } in
    let s3 = record s2 { max_concurrent_streams = s.max_concurrent_streams } in
    let s4 = record s3 { initial_window_size = s.initial_window_size } in
    let s5 = record s4 { max_frame_size = s.max_frame_size } in
    let s6 = record s5 { max_header_list_size = s.max_header_list_size } in
    settings_loop-write_setting header_table_size_id s.header_table_size _ before s1 (omega arith)
      v.table_fits (unfold apply_setting in refl)
    ∙ settings_loop-write_setting enable_push_id s.enable_push _ s1 s2 (omega arith)
        (omega (arith, v)) (unfold apply_setting in ground (arith, v))
    ∙ settings_loop-write_setting max_concurrent_streams_id s.max_concurrent_streams _ s2 s3
        (omega arith) v.streams_fit (unfold apply_setting in refl)
    ∙ settings_loop-write_setting initial_window_size_id s.initial_window_size _ s3 s4 (omega arith)
        (omega (arith, v)) (unfold apply_setting in ground (arith, v))
    ∙ settings_loop-write_setting max_frame_size_id s.max_frame_size _ s4 s5 (omega arith)
        (omega (arith, v)) (unfold apply_setting in ground (arith, v))
    ∙ settings_loop-write_setting max_header_list_size_id s.max_header_list_size _ s5 s6
        (omega arith) v.list_fits (unfold apply_setting in refl)
    ∙ unfold write_uint16_be write_uint32_be settings_loop in
      settings_loop-write_setting enable_connect_protocol_id s.enable_connect_protocol [] s6 s
        (omega arith) (omega (arith, v)) (unfold apply_setting in ground (arith, v))

-- For settings within the limits of the protocol and room for 51 bytes, `EncodeSettings` writes a
-- SETTINGS frame on stream 0, and its payload sets every setting to the value written, whatever it
-- was before.
pub settings_round_trip :
    (s before : Settings) (capacity : ℕ)
    → IsSettings s
    → 51 ≤ capacity
    → Writes
        (encode_settings s (some capacity))
        (record { length_ = 42; type_ = settings; flags = 0; stream_id = 0 })
        (settings_payload s)
        capacity
      × (decode_settings_payload (bytes (settings_payload s)) before ≡ (s, none))
unfolding encode_settings settings_payload decode_settings_payload
settings_round_trip s before capacity v c =
    let h : FrameHeader = record { length_ = 42; type_ = settings; flags = 0; stream_id = 0 } in
    let fits : IsHeader h = record {
      length_fits = omega arith;
      type_fits = tt;
      flags_fit = omega arith;
      stream_fits = omega arith;
    } in
    let (w, e, f) =
      finish_frame-IsFrame h (settings_payload s) capacity fits (sym (length-settings_payload s))
        (omega (arith, length-settings_payload s)) in
    (
      (w, ground arith, f),
      ground (arith, length-settings_payload s, settings_loop-settings_payload s before v),
    )

-- With room for nine bytes, `EncodeSettingsAck` writes a SETTINGS frame on stream 0 with ACK set
-- and no payload.
pub encode_settings_ack-Writes :
    (capacity : ℕ)
    → 9 ≤ capacity
    → Writes
        (encode_settings_ack (some capacity))
        (record { length_ = 0; type_ = settings; flags = 1; stream_id = 0 })
        []
        capacity
unfolding encode_settings_ack
encode_settings_ack-Writes capacity c =
    let h : FrameHeader = record { length_ = 0; type_ = settings; flags = 1; stream_id = 0 } in
    let fits : IsHeader h = record {
      length_fits = omega arith;
      type_fits = tt;
      flags_fit = omega arith;
      stream_fits = omega arith;
    } in
    let (w, e, f) = encode_frame_header-IsFrame h capacity fits refl c in (w, ground (arith, e), f)
