-- ===== src/Http2/Frame/Payload.antt =====
-- The reading side of src/KernelHttpLib/http2/Http2Frame.cpp: DecodeFrameHeader on any bytes, and
-- StripPadding and StripPriority.
use win_kernel_http.Common.{
  ℕ, suc, [], ◌∷◌, ◌++◌, ◌+◌, ◌-◌, ◌*◌, ◌%◌, ◌^◌, ◌≤◌, ◌<◌, ◌≡◌, ◌≢◌, ◌↔◌, ◌⊎◌, inl, inr, ap, arith,
  true, some, length, take, drop, take-append, length-append, drop-append, take-append-drop,
  length-drop, All,
}
use win_kernel_http.Common.Buffer.{Bytes, bytes, has_bit, IsByte}
use win_kernel_http.Common.Status.{more_processing_required, ok, err, ◌>>=◌}
use win_kernel_http.Http2.Wire.{write_uint24_be, write_uint32_be, read_uint24_be, read_uint32_be}
use win_kernel_http.Http2.Frame.{
  type_code, type_of_code, FrameHeader, decode_frame_header, encode_frame_header, strip_padding,
  strip_priority, padded_bit, priority_bit,
}
use win_kernel_http.Http2.Frame.Layout.{IsHeader, IsType}

type_of_code-IsType :
    (n : ℕ) → IsByte n → IsType (type_of_code n) × (type_code (type_of_code n) ≡ n)
unfolding type_of_code type_code
type_of_code-IsType n h = ground arith

-- The first nine bytes with the reserved bit of the stream identifier cleared.
abbrev pub clear_reserved : Bytes → Bytes
clear_reserved (a ∷ b ∷ c ∷ t ∷ f ∷ s ∷ rest) = a ∷ b ∷ c ∷ t ∷ f ∷ s % 128 ∷ take 3 rest
clear_reserved src = src

-- On any bytes, `DecodeFrameHeader` asks for more below nine of them, and takes any nine or more;
-- what it returns fits a header, and `EncodeFrameHeader` writes the nine bytes back, less the
-- reserved bit.
pub decode_frame_header_total :
    (src : Bytes)
    → All IsByte src
    → ((length src < 9) × (decode_frame_header (bytes src) ≡ err more_processing_required))
      ⊎ ((h : FrameHeader) × (decode_frame_header (bytes src) ≡ ok h)
          × IsHeader h
          × (encode_frame_header h (some 9)
              ≡ ok (record { stored = clear_reserved src; count = 9 })))
unfolding decode_frame_header read_uint24_be read_uint32_be encode_frame_header write_uint24_be
    write_uint32_be
decode_frame_header_total (a ∷ b ∷ c ∷ t ∷ f ∷ p ∷ q ∷ r ∷ s ∷ rest) h =
    let (x, y) = type_of_code-IsType t (omega arith) in
    inr (
      record {
        length_ = a * 2 ^ 16 + b * 2 ^ 8 + c;
        type_ = type_of_code t;
        flags = f;
        stream_id = (p * 2 ^ 24 + q * 2 ^ 16 + r * 2 ^ 8 + s) % 2 ^ 31;
      },
      ground arith,
      record {
        length_fits = omega arith;
        type_fits = x;
        flags_fit = omega arith;
        stream_fits = omega arith;
      },
      ground arith,
    )
decode_frame_header_total _ h = inl (omega arith, ground arith)

strip_padding-pad :
    (flags : ℕ) (content padding : Bytes)
    → has_bit flags padded_bit ≡ true
    → strip_padding flags (bytes (length padding ∷ (content ++ padding))) ≡ ok (bytes content)
unfolding strip_padding
strip_padding-pad flags content padding f =
    let size : suc (length (content ++ padding)) - 1 - length padding ≡ length content =
      omega (arith, length-append content padding) in
    ground (
      arith,
      take-append content padding,
      length-append content padding,
      size,
      ap (λ n. take n (content ++ padding)) size,
    )

-- A padded payload that is accepted has room for its padding, and the content stands in front.
strip_padding_ok :
    (flags pad : ℕ) (rest content : Bytes)
    → has_bit flags padded_bit ≡ true
    → strip_padding flags (bytes (pad ∷ rest)) ≡ ok (bytes content)
    → (pad ≤ length rest) × (content ≡ take (suc (length rest) - 1 - pad) rest)
unfolding strip_padding
strip_padding_ok flags pad rest content f e = ground arith

strip_padding_nil :
    (flags : ℕ) (content : Bytes)
    → has_bit flags padded_bit ≡ true
    → strip_padding flags (bytes []) ≢ ok (bytes content)
unfolding strip_padding
strip_padding_nil flags content f e = ground arith

unpad :
    (flags : ℕ) (payload content : Bytes)
    → has_bit flags padded_bit ≡ true
    → strip_padding flags (bytes payload) ≡ ok (bytes content)
    → (padding : Bytes) × (payload ≡ length padding ∷ (content ++ padding))
unpad flags [] content f e = absurd (strip_padding_nil flags content f e)
unpad flags (pad ∷ rest) content f e =
    let (room, front) = strip_padding_ok flags pad rest content f e in
    let n = suc (length rest) - 1 - pad in
    let padding = drop n rest in
    let size : length padding ≡ pad = omega (arith, length-drop n rest) in
    (padding, cc (size, front, take-append-drop n rest))

-- With the PADDED flag, `StripPadding` leaves `content` exactly when the payload is the pad length,
-- the content, and that many bytes of padding.
pub strip_padding_iff :
    (flags : ℕ) (payload content : Bytes)
    → has_bit flags padded_bit ≡ true
    → (strip_padding flags (bytes payload) ≡ ok (bytes content))
      ↔ ((padding : Bytes) × (payload ≡ length padding ∷ (content ++ padding)))
strip_padding_iff flags payload content f = (
  unpad flags payload content f,
  λ (padding, e). rw e (strip_padding-pad flags content padding f),
)

-- With PADDED and PRIORITY both set, `StripPadding` and then `StripPriority` turn a payload made of
-- the pad length, five priority bytes, a header block and the padding into the header block.
pub strip_both :
    (flags : ℕ) (field block padding : Bytes)
    → has_bit flags padded_bit ≡ true
    → has_bit flags priority_bit ≡ true
    → length field ≡ 5
    → (strip_padding flags (bytes (length padding ∷ ((field ++ block) ++ padding)))
        >>= strip_priority flags)
      ≡ ok (bytes block)
strip_both flags field block padding f g five =
    rw (strip_padding-pad flags (field ++ block) padding f) (
      let skip : drop 5 (field ++ block) ≡ block = rw five at (drop-append field block) in
      unfold strip_priority in ground (arith, skip, length-append field block))
