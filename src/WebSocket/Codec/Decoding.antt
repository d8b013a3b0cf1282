-- ===== src/WebSocket/Codec/Decoding.antt =====
-- DecodeFrameHeader of src/KernelHttpLib/websocket/WebSocketFrame.cpp on any input: what it
-- accepts, and how it behaves while bytes arrive.
use win_kernel_http.Common.{
  ℕ, [], ◌∷◌, ◌++◌, ◌+◌, ◌*◌, ◌^◌, ◌≤◌, ◌<◌, ◌≡◌, ◌≢◌, refl, arith, inl, inr, true, false, length,
  zero, suc, All, length-append, get_or-append,
}
use win_kernel_http.Common.Buffer.{Bytes, bytes, low_bits, byte_at, IsByte}
use win_kernel_http.Common.Status.{more_processing_required, ok, err, Result-cases}
use win_kernel_http.WebSocket.Codec.{
  opcode_of_code, is_known_opcode, FrameHeader, header_size, read_rounds, read_extended_length,
  decode_frame_header,
}
use win_kernel_http.WebSocket.Codec.Masking.{byte_at-IsByte}
use win_kernel_http.WebSocket.Codec.Fields.{IsOpcode, IsAllowed}

-- A header that RFC 6455 lets a server send: not masked, an opcode of the enumeration, control
-- frames whole and short, and a payload length below 2^63 in its shortest form.
pub record IsServerHeader (h : FrameHeader) : Type 0 where
  pub unmasked : h.masked ≡ false
  pub opcode_known : IsOpcode h.opcode
  pub allowed : IsAllowed h.opcode h.fin h.payload_length
  pub length_fits : h.payload_length < 2 ^ 63
  pub shortest : h.header_length ≡ header_size h.payload_length false

opcode_of_code-IsOpcode : (n : ℕ) → is_known_opcode n ≡ true → IsOpcode (opcode_of_code n)
unfolding is_known_opcode opcode_of_code
opcode_of_code-IsOpcode n h = ground arith

read_rounds-lt :
    (n value : ℕ) (src : Bytes) (j : ℕ) → All IsByte src → read_rounds (suc n) value src j < 2 ^ 64
unfolding read_rounds
read_rounds-lt zero value src j h = omega (arith, byte_at-IsByte src j h)
read_rounds-lt (suc n) value src j h = read_rounds-lt n _ src (j + 1) h

read_extended_length_ok :
    (src : Bytes) (code : ℕ) {n cursor : ℕ}
    → All IsByte src
    → code < 128
    → 2 ≤ length src
    → read_extended_length src code 2 ≡ ok (n, cursor)
    → (n < 2 ^ 63) × (cursor ≡ header_size n false) × (cursor ≤ length src)
unfolding read_extended_length
read_extended_length_ok src code h c l e =
    ground (arith, read_rounds-lt 7 0 src 2 h, byte_at-IsByte src 2 h, byte_at-IsByte src (2 + 1) h)

-- On any bytes, a header that `DecodeFrameHeader` accepts is not masked, has an opcode of the
-- enumeration, is whole and short if it is a control frame, and gives a length below 2^63 in its
-- shortest form; and its own bytes have all arrived.
pub decode_frame_header-IsServerHeader :
    (src : Bytes) {h : FrameHeader}
    → All IsByte src
    → decode_frame_header (bytes src) ≡ ok h
    → IsServerHeader h × (h.header_length ≤ length src)
unfolding decode_frame_header
decode_frame_header-IsServerHeader [] b e = ground arith
decode_frame_header-IsServerHeader (x ∷ []) b e = ground arith
decode_frame_header-IsServerHeader (x ∷ y ∷ rest) b e =
    elim (Result-cases (read_extended_length (x ∷ y ∷ rest) (low_bits y 7) 2)) [
      | inl ((n, cursor), r) ↦ ground (
        arith,
        read_extended_length_ok (x ∷ y ∷ rest) (low_bits y 7) {n = n} {cursor = cursor} b
            (omega arith) (omega arith) r,
        opcode_of_code-IsOpcode (low_bits x 4),
      )
      | inr (s, r) ↦ ground arith
    ]

read_rounds-append :
    (n value : ℕ) (src more : Bytes) (j : ℕ)
    → j + n ≤ length src
    → read_rounds n value (src ++ more) j ≡ read_rounds n value src j
unfolding read_rounds
read_rounds-append zero value src more j h = refl
read_rounds-append (suc n) value src more j h = ground (
  arith,
  get_or-append src more j 0,
  read_rounds-append n (low_bits (value * 2 ^ 8) 64 + byte_at src j) src more (j + 1),
)

read_extended_length-append :
    (src more : Bytes) (code : ℕ)
    → 2 ≤ length src
    → read_extended_length src code 2 ≢ err more_processing_required
    → read_extended_length (src ++ more) code 2 ≡ read_extended_length src code 2
unfolding read_extended_length
read_extended_length-append src more code l h = ground (
  arith,
  length-append src more,
  get_or-append src more 2 0,
  get_or-append src more (2 + 1) 0,
  read_rounds-append 8 0 src more 2,
)

read_extended_length_ten :
    (src : Bytes) (code : ℕ)
    → 10 ≤ length src
    → read_extended_length src code 2 ≢ err more_processing_required
unfolding read_extended_length
read_extended_length_ten src code l = ground arith

-- A verdict of `DecodeFrameHeader` on the bytes so far, acceptance or refusal, is not changed by
-- bytes that come later.
pub decode_frame_header_stream :
    (src more : Bytes)
    → decode_frame_header (bytes src) ≢ err more_processing_required
    → decode_frame_header (bytes (src ++ more)) ≡ decode_frame_header (bytes src)
unfolding decode_frame_header
decode_frame_header_stream [] more h = absurd (h refl)
decode_frame_header_stream (x ∷ []) more h = absurd (h refl)
decode_frame_header_stream (x ∷ y ∷ rest) more h =
    elim (Result-cases (read_extended_length (x ∷ y ∷ rest) (low_bits y 7) 2)) [
      | inl (p, r) ↦ ground (
        arith,
        read_extended_length-append (x ∷ y ∷ rest) more (low_bits y 7),
        length-append rest more,
      )
      | inr (s, r) ↦ ground (
        arith,
        read_extended_length-append (x ∷ y ∷ rest) more (low_bits y 7),
        length-append rest more,
      )
    ]

-- On ten bytes or more, `DecodeFrameHeader` never asks for more data.
pub decode_frame_header_ten :
    (src : Bytes) → 10 ≤ length src → decode_frame_header (bytes src) ≢ err more_processing_required
unfolding decode_frame_header
decode_frame_header_ten [] h e = absurd (omega arith)
decode_frame_header_ten (x ∷ []) h e = absurd (omega arith)
decode_frame_header_ten (x ∷ y ∷ rest) h e =
    elim (Result-cases (read_extended_length (x ∷ y ∷ rest) (low_bits y 7) 2)) [
      | inl (p, r) ↦ ground arith
      | inr (s, r) ↦ ground (arith, read_extended_length_ten (x ∷ y ∷ rest) (low_bits y 7) h)
    ]
