-- ===== src/Http2/Wire.antt =====
-- Big-endian integers: WriteUint24BE to ReadUint16BE of src/KernelHttpLib/http2/Http2Frame.cpp.
use win_kernel_http.Common.{ℕ, [], ◌∷◌, ◌+◌, ◌*◌, ◌^◌}
use win_kernel_http.Common.Buffer.{Bytes, shr, low_bits, byte_at}

-- What the writers store at their pointer.
unfoldable pub write_uint16_be : ℕ → Bytes
write_uint16_be value = low_bits (shr value 8) 8 ∷ low_bits value 8 ∷ []

unfoldable pub write_uint24_be : ℕ → Bytes
write_uint24_be value = low_bits (shr value 16) 8 ∷ low_bits (shr value 8) 8 ∷ low_bits value 8 ∷ []

unfoldable pub write_uint32_be : ℕ → Bytes
write_uint32_be value =
    low_bits (shr value 24) 8
    ∷ low_bits (shr value 16) 8
    ∷ low_bits (shr value 8) 8
    ∷ low_bits value 8
    ∷ []

-- What the readers find at `src + i`.
unfoldable pub read_uint16_be : Bytes → ℕ → ℕ
read_uint16_be src i = byte_at src i * 2 ^ 8 + byte_at src (i + 1)

unfoldable pub read_uint24_be : Bytes → ℕ → ℕ
read_uint24_be src i = byte_at src i * 2 ^ 16 + byte_at src (i + 1) * 2 ^ 8 + byte_at src (i + 2)

unfoldable pub read_uint32_be : Bytes → ℕ → ℕ
read_uint32_be src i =
    byte_at src i * 2 ^ 24
    + byte_at src (i + 1) * 2 ^ 16
    + byte_at src (i + 2) * 2 ^ 8
    + byte_at src (i + 3)
