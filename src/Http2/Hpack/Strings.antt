-- ===== src/Http2/Hpack/Strings.antt =====
-- String literals of a header block: EncodeHeaderString of src/KernelHttpLib/http2/Hpack.cpp and
-- the reading of a string that HpackDecoder::Decode repeats for each name and value.
use win_kernel_http.Common.{
  ℕ, [], ◌∷◌, ◌++◌, ◌+◌, ◌-◌, ◌*◌, ◌%◌, ◌^◌, Bool, not, ◌&&◌, ltb, leb, ◌==◌, if◌then◌else◌, Option,
  none, some, length, take, drop,
}
use win_kernel_http.Common.Buffer.{Bytes, bytes, byte_at, has_bit, low_bits}
use win_kernel_http.Common.Status.{
  invalid_network_response, buffer_too_small, Result, ok, err, ◌>>=◌, ◌>>◌, require,
}
use win_kernel_http.Http2.Hpack.Integer.{encode_integer, decode_integer}
use win_kernel_http.Http2.Hpack.Huffman.{huffman_encoded_length, huffman_encode, huffman_decode}
use win_kernel_http.Http2.Hpack.Names.{range_fits, multiply_size}
pub mod RoundTrip

-- What is appended where `room` bytes are left behind `*offset`, which is within the capacity.
unfoldable pub encode_header_string : Bytes → ℕ → Result Bytes
encode_header_string text room =
    let huff_len = huffman_encoded_length (bytes text) in
    if ltb huff_len (length text) && ltb 0 (length text)
    then (do
      size ← encode_integer (low_bits huff_len 32) 0x80 7 (some room)
      coded ← huffman_encode (bytes text) (some (room - length size))
      ok (size ++ coded))
    else (do
      size ← encode_integer (low_bits (length text) 32) 0x00 7 (some room)
      require (leb (length text) (room - length size)) buffer_too_small
      ok (size ++ text))

-- `HpackDecodeInteger` on what is left of the block, and what is left behind it.
unfoldable pub read_integer : Bytes → ℕ → Result (ℕ × Bytes)
read_integer rest bits = do
  (value, consumed) ← decode_integer (bytes rest) bits
  ok (value, drop consumed rest)

-- The bytes that a string stands for: `nv_offset` bytes of the output buffer are in use.
unfoldable pub string_bytes : Bool → Bytes → ℕ → ℕ → Result Bytes
string_bytes huffman coded nv_offset capacity =
    if huffman
    then (elim (multiply_size (length coded) 2) [
      | none ↦ err buffer_too_small
      | some hint ↦ do
        require (range_fits nv_offset hint capacity) buffer_too_small
        huffman_decode (bytes coded) (some (capacity - nv_offset))
    ])
    else (do require (range_fits nv_offset (length coded) capacity) buffer_too_small; ok coded)

-- A string on what is left of the block, and what is left behind it.
unfoldable pub read_string : Bytes → ℕ → ℕ → Result (Bytes × Bytes)
read_string rest nv_offset capacity = do
  require (ltb 0 (length rest)) invalid_network_response
  (size, behind) ← read_integer rest 7
  require (leb size (length behind)) invalid_network_response
  text ← string_bytes (has_bit (byte_at rest 0) 7) (take size behind) nv_offset capacity
  ok (text, drop size behind)
