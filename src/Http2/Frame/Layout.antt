-- ===== src/Http2/Frame/Layout.antt =====
-- The bytes of one frame, as DecodeFrameHeader of src/KernelHttpLib/http2/Http2Frame.cpp reads
-- them, and what it means that an encoder writes such a frame.
use win_kernel_http.Common.{
  [], ℕ, ◌∷◌, ◌++◌, ◌+◌, ◌^◌, ◌≤◌, ◌<◌, ◌≡◌, refl, arith, some, length, drop,
}
use win_kernel_http.Common.Buffer.{Bytes, bytes, Written, low_bits, IsByte}
use win_kernel_http.Common.Status.{Result, ok}
use win_kernel_http.Http2.Wire.{write_uint24_be, write_uint32_be, read_uint24_be, read_uint32_be}
use mathlib.Core.List.{append_assoc}
use win_kernel_http.Http2.Frame.{
  frame_header_length, max_allowed_frame_size, FrameType, data_, other, type_code, type_of_code,
  FrameHeader, encode_frame_header, decode_frame_header, finish_frame,
}

-- A type that a byte can name: the ten of the enumeration, or a byte with no enumerator.
abbrev pub IsType : FrameType → Type 0
IsType (other n) = (9 < n) × (n < 256)
IsType _ = Unit

-- A header that fits its nine bytes.
pub record IsHeader (h : FrameHeader) : Type 0 where
  pub length_fits : h.length_ ≤ max_allowed_frame_size
  pub type_fits : IsType h.type_
  pub flags_fit : IsByte h.flags
  pub stream_fits : h.stream_id < 2 ^ 31

type_of_code-type_code : (t : FrameType) → IsType t → type_of_code (type_code t) ≡ t
unfolding type_of_code type_code
type_of_code-type_code data_ h = refl
type_of_code-type_code (other n) h = ground arith
type_of_code-type_code _ h = refl

-- `w` is one frame: its first nine bytes decode to `h`, whatever follows it, then comes `payload`,
-- and the reported count is the number of bytes, which fit the destination.
pub record IsFrame (h : FrameHeader) (payload : Bytes) (capacity : ℕ) (w : Written) : Type 0 where
  pub decodes : (rest : Bytes) → decode_frame_header (bytes (w.stored ++ rest)) ≡ ok h
  pub carries : drop frame_header_length w.stored ≡ payload
  pub counts : w.count ≡ length w.stored
  pub within : w.count ≤ capacity
  pub announces : h.length_ ≡ length payload

-- The nine bytes of a header.
header_bytes : FrameHeader → Bytes
unfolding write_uint24_be write_uint32_be
header_bytes h =
    write_uint24_be h.length_
    ++ (type_code h.type_ ∷ h.flags ∷ write_uint32_be (low_bits h.stream_id 31))

encode_frame_header_lem :
    (h : FrameHeader) (capacity : ℕ)
    → IsHeader h
    → 9 ≤ capacity
    → encode_frame_header h (some capacity) ≡ ok (record { stored = header_bytes h; count = 9 })
unfolding encode_frame_header header_bytes
encode_frame_header_lem h capacity v c = ground (arith, v)

decode-header_bytes :
    (h : FrameHeader) (rest : Bytes)
    → IsHeader h
    → decode_frame_header (bytes (header_bytes h ++ rest)) ≡ ok h
unfolding decode_frame_header header_bytes read_uint24_be read_uint32_be
decode-header_bytes h rest v = ground (arith, v, type_of_code-type_code h.type_ v.type_fits)

pub finish_frame-IsFrame :
    (h : FrameHeader) (payload : Bytes) (capacity : ℕ)
    → IsHeader h
    → h.length_ ≡ length payload
    → 9 + length payload ≤ capacity
    → (w : Written) × (finish_frame h capacity payload ≡ ok w) × IsFrame h payload capacity w
finish_frame-IsFrame h payload capacity v l c = (
  record { stored = header_bytes h ++ payload; count = 9 + length payload },
  rw (encode_frame_header_lem h capacity v (omega arith)),
  record {
    decodes = λ rest. rw append_assoc (decode-header_bytes h (payload ++ rest) v);
    carries = unfold header_bytes in refl;
    counts = unfold header_bytes in omega arith;
    within = c;
    announces = l;
  },
)

-- A header alone is a frame without a payload.
pub encode_frame_header-IsFrame :
    (h : FrameHeader) (capacity : ℕ)
    → IsHeader h
    → h.length_ ≡ 0
    → 9 ≤ capacity
    → (w : Written) × (encode_frame_header h (some capacity) ≡ ok w) × IsFrame h [] capacity w
encode_frame_header-IsFrame h capacity v l c = (
  record { stored = header_bytes h; count = 9 },
  encode_frame_header_lem h capacity v c,
  record {
    decodes = λ rest. decode-header_bytes h rest v;
    carries = unfold header_bytes in refl;
    counts = unfold header_bytes in refl;
    within = c;
    announces = l;
  },
)

-- `call` succeeds, and what it wrote is the frame of `h` and `payload`.
abbrev pub Writes : Result Written → FrameHeader → Bytes → ℕ → Type 0
Writes call h payload capacity = (w : Written) × (call ≡ ok w) × IsFrame h payload capacity w
