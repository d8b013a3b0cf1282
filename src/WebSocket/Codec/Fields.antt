-- ===== src/WebSocket/Codec/Fields.antt =====
-- The header that EncodeFrame of src/KernelHttpLib/websocket/WebSocketFrame.cpp writes, byte by
-- byte, as DecodeFrameHeader reads it.
use win_kernel_http.Common.{
  ℕ, [], ◌∷◌, ◌++◌, ◌+◌, ◌^◌, ◌≤◌, ◌<◌, ◌≡◌, refl, arith, inl, inr, Bool, true, false, not, ◌&&◌,
  ◌||◌, ltb, leb, ◌==◌, if◌then◌else◌, length, Bool-cases,
}
use win_kernel_http.Common.Buffer.{Bytes, bytes, shr, low_bits, has_bit}
use win_kernel_http.Common.Status.{invalid_network_response, ok, err}
use win_kernel_http.WebSocket.Codec.{
  Opcode, continuation, reserved, opcode_code, opcode_of_code, is_known_opcode, is_control_opcode,
  write_payload_length, header_size, read_rounds, read_extended_length, decode_frame_header,
}

-- A value of the enumeration.
abbrev pub IsOpcode : Opcode → Type 0
IsOpcode (reserved n) = ⊥
IsOpcode _ = Unit

-- Control frames are whole and short.
abbrev pub IsAllowed : Opcode → Bool → ℕ → Type 0
IsAllowed opcode fin n = (is_control_opcode opcode && (not fin || ltb 125 n)) ≡ false

abbrev pub first_byte : Bool → Opcode → ℕ
first_byte fin opcode = (if fin then 0x80 else 0) + opcode_code opcode

record FirstByte (fin : Bool) (opcode : Opcode) (b : ℕ) : Type 0 where
  no_reserved : (low_bits (shr b 4) 3 == 0) ≡ true
  known : is_known_opcode (low_bits b 4) ≡ true
  named : opcode_of_code (low_bits b 4) ≡ opcode
  final : has_bit b 7 ≡ fin

first_byte_lem :
    (fin : Bool) (opcode : Opcode) → IsOpcode opcode → FirstByte fin opcode (first_byte fin opcode)
unfolding opcode_code opcode_of_code is_known_opcode
first_byte_lem true continuation h = record {
  no_reserved = refl;
  known = refl;
  named = refl;
  final = refl;
}
first_byte_lem false continuation h = record {
  no_reserved = refl;
  known = refl;
  named = refl;
  final = refl;
}
first_byte_lem true (reserved n) h = absurd h
first_byte_lem true _ h = record { no_reserved = refl; known = refl; named = refl; final = refl }
first_byte_lem false (reserved n) h = absurd h
first_byte_lem false _ h = record { no_reserved = refl; known = refl; named = refl; final = refl }

-- The length field behind the first byte.
pub size_bytes : ℕ → Bool → Bytes
size_bytes n masked =
    let mask_bit : ℕ = if masked then 0x80 else 0 in
    if leb n 125
    then (mask_bit + n) ∷ []
    else if leb n 0xffff
    then (mask_bit + 126) ∷ low_bits (shr n 8) 8 ∷ low_bits n 8 ∷ []
    else ((mask_bit + 127)
        ∷ low_bits (shr n 56) 8
        ∷ low_bits (shr n 48) 8
        ∷ low_bits (shr n 40) 8
        ∷ low_bits (shr n 32) 8
        ∷ low_bits (shr n 24) 8
        ∷ low_bits (shr n 16) 8
        ∷ low_bits (shr n 8) 8
        ∷ low_bits n 8
        ∷ [])

pub write_payload_length_lem :
    (n : ℕ) (masked : Bool) (capacity : ℕ)
    → header_size n masked ≤ capacity
    → write_payload_length n masked capacity 1 ≡ ok (size_bytes n masked)
unfolding write_payload_length size_bytes
write_payload_length_lem n masked capacity h = ground arith

pub length-size_bytes :
    (n : ℕ) (masked : Bool)
    → 1 + length (size_bytes n masked) + (if masked then 4 else 0) ≡ header_size n masked
unfolding size_bytes
length-size_bytes n masked = ground arith

-- The length field as its first byte, with or without the mask bit, and the bytes behind it.
unfoldable pub size_code : ℕ → ℕ
size_code n = if leb n 125 then n else if leb n 0xffff then 126 else 127

unfoldable pub size_tail : ℕ → Bytes
size_tail n =
    if leb n 125
    then []
    else if leb n 0xffff
    then low_bits (shr n 8) 8 ∷ low_bits n 8 ∷ []
    else low_bits (shr n 56) 8
      ∷ low_bits (shr n 48) 8
      ∷ low_bits (shr n 40) 8
      ∷ low_bits (shr n 32) 8
      ∷ low_bits (shr n 24) 8
      ∷ low_bits (shr n 16) 8
      ∷ low_bits (shr n 8) 8
      ∷ low_bits n 8
      ∷ []

unfoldable pub second_byte : ℕ → Bool → ℕ
second_byte n masked = (if masked then 0x80 else 0) + size_code n

pub size_bytes_lem :
    (n : ℕ) (masked : Bool) → size_bytes n masked ≡ second_byte n masked ∷ size_tail n
unfolding size_bytes second_byte size_tail size_code
size_bytes_lem n masked = ground arith

second_byte_lem :
    (n : ℕ) (masked : Bool)
    → (low_bits (second_byte n masked) 7 ≡ size_code n)
      × (has_bit (second_byte n masked) 7 ≡ masked)
unfolding second_byte size_code
second_byte_lem n masked = ground arith

read_rounds_eight :
    (n a b : ℕ) (rest : Bytes)
    → n < 2 ^ 63
    → read_rounds 8 0
        (a
          ∷ b
          ∷ low_bits (shr n 56) 8
          ∷ low_bits (shr n 48) 8
          ∷ low_bits (shr n 40) 8
          ∷ low_bits (shr n 32) 8
          ∷ low_bits (shr n 24) 8
          ∷ low_bits (shr n 16) 8
          ∷ low_bits (shr n 8) 8
          ∷ low_bits n 8
          ∷ rest)
        2
      ≡ n
unfolding read_rounds
read_rounds_eight n a b rest h = omega arith

-- Reading the length field back, in each of its three forms.
read_size :
    (n a b : ℕ) (rest : Bytes)
    → n < 2 ^ 63
    → read_extended_length (a ∷ b ∷ (size_tail n ++ rest)) (size_code n) 2
      ≡ ok (n, header_size n false)
unfolding size_tail size_code read_extended_length
read_size n a b rest h = elim (Bool-cases (leb n 125)) [
  | inl short ↦ rw short (ground arith)
  | inr more ↦ elim (Bool-cases (leb n 0xffff)) [
    | inl medium ↦ rw (more, medium) (ground arith)
    | inr long ↦ rw (more, long) (ground (arith, read_rounds_eight n a b rest h))
  ]
]

-- A whole unmasked header, whatever follows it.
pub decode-header :
    (fin : Bool) (opcode : Opcode) (n : ℕ) (rest : Bytes)
    → IsOpcode opcode
    → IsAllowed opcode fin n
    → n < 2 ^ 63
    → decode_frame_header (bytes (first_byte fin opcode ∷ (size_bytes n false ++ rest)))
      ≡ ok (record {
        fin = fin;
        masked = false;
        opcode = opcode;
        payload_length = n;
        masking_key = 0 ∷ 0 ∷ 0 ∷ 0 ∷ [];
        header_length = header_size n false;
      })
unfolding decode_frame_header
decode-header fin opcode n rest o a h = rw (size_bytes_lem n false) (
    ground (
      arith,
      first_byte_lem fin opcode o,
      second_byte_lem n false,
      read_size n (first_byte fin opcode) (second_byte n false) rest h,
    ))

-- A client role refuses the header of any masked frame.
pub decode-masked :
    (fin : Bool) (opcode : Opcode) (n : ℕ) (rest : Bytes)
    → IsOpcode opcode
    → n < 2 ^ 63
    → decode_frame_header (bytes (first_byte fin opcode ∷ (size_bytes n true ++ rest)))
      ≡ err invalid_network_response
unfolding decode_frame_header
decode-masked fin opcode n rest o h = rw (size_bytes_lem n true) (
    ground (
      arith,
      first_byte_lem fin opcode o,
      second_byte_lem n true,
      read_size n (first_byte fin opcode) (second_byte n true) rest h,
    ))
