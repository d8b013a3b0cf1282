-- ===== src/Http2/Hpack/Huffman.antt =====
-- FindHuffmanSymbol, HpackHuffmanEncodedLength, HpackHuffmanEncode and HpackHuffmanDecode of
-- src/KernelHttpLib/http2/Hpack.cpp. The destination is its capacity: `none` is a null
-- `bytesWritten`, or a null `dest` with a capacity above 0. The bytes written are as many as
-- `*bytesWritten` says.
pub mod Tables
pub mod Bits
pub mod Search
pub mod Runs
pub mod Packing
pub mod Reading
pub mod RoundTrip
pub mod Taking
pub mod Canonical
mod Examples
use win_kernel_http.Common.{
  ℕ, zero, suc, List, [], ◌∷◌, ◌++◌, ◌+◌, ◌-◌, ◌*◌, ◌/◌, ◌%◌, ◌^◌, Bool, not, ◌&&◌, ltb, leb, ◌==◌,
  if◌then◌else◌, Option, none, some, length, take, drop, get_or,
}
use win_kernel_http.Common.Buffer.{Bytes, Buffer, shr, low_bits, is_missing, contents}
use win_kernel_http.Common.Status.{
  invalid_parameter, buffer_too_small, invalid_network_response, Result, ok, err, require, refuse,
  ◌>>=◌, ◌>>◌,
}
use Tables.{
  HuffmanSymbol, entry, huffman_encode_table, huffman_symbols_by_length, huffman_length_offsets,
  huffman_length_counts,
}

-- `HpackHuffmanEncodeTable[symbol]`
unfoldable pub huffman_symbol : ℕ → HuffmanSymbol
huffman_symbol symbol = get_or huffman_encode_table symbol (entry 0 0)

-- The loop of `FindHuffmanSymbol` over the candidates that are left.
unfoldable pub find_among : List ℕ → ℕ → Option ℕ
find_among [] code = none
find_among (candidate ∷ rest) code =
    if (huffman_symbol candidate).code == code then some candidate else find_among rest code

-- The symbols whose codes have a given length.
unfoldable pub candidates : ℕ → List ℕ
candidates bit_length =
    take (get_or huffman_length_counts bit_length 0)
      (drop (get_or huffman_length_offsets bit_length 0) huffman_symbols_by_length)

unfoldable pub find_huffman_symbol : ℕ → ℕ → Option ℕ
find_huffman_symbol code bit_length =
    if leb 32 bit_length then none else find_among (candidates bit_length) code

unfoldable pub total_bits : Bytes → ℕ
total_bits [] = 0
total_bits (b ∷ src) = (huffman_symbol b).bit_length + total_bits src

-- A null `src` has no contents. `totalBits` is a `SIZE_T`.
unfoldable pub huffman_encoded_length : Buffer → ℕ
huffman_encoded_length src =
    if length (contents src) == 0 then 0 else (total_bits (contents src) + 7) % 2 ^ 64 / 8

-- `dest` up to `destOffset`, `currentByte` and `bitCount`.
pub record Encoder : Type 0 where
  pub out : Bytes
  pub current_byte : ℕ
  pub bit_count : ℕ

unfoldable pub put_bit : ℕ → Encoder → ℕ → Result Encoder
put_bit capacity s bit =
    let byte : ℕ = (s.current_byte * 2 + bit) % 256 in
    if s.bit_count + 1 == 8
    then (if leb capacity (length s.out)
        then err buffer_too_small
        else ok (record { out = s.out ++ (byte ∷ []); current_byte = 0; bit_count = 0 }))
    else ok (record s { current_byte = byte; bit_count = s.bit_count + 1 })

-- The loop over the `left` lower bits of a code.
unfoldable pub put_code : ℕ → ℕ → ℕ → Encoder → Result Encoder
put_code capacity zero code s = ok s
put_code capacity (suc left) code s = do
  next ← put_bit capacity s (shr code left % 2)
  put_code capacity left code next

unfoldable pub put_symbols : ℕ → Bytes → Encoder → Result Encoder
put_symbols capacity [] s = ok s
put_symbols capacity (b ∷ src) s = do
  next ← put_code capacity (huffman_symbol b).bit_length (huffman_symbol b).code s
  put_symbols capacity src next

-- The padding behind the last code.
unfoldable pub finish_encoding : ℕ → Encoder → Result Bytes
finish_encoding capacity s =
    let pad : ℕ = 8 - s.bit_count in
    let byte : ℕ = (s.current_byte * 2 ^ pad + (2 ^ pad - 1)) % 256 in
    if s.bit_count == 0
    then ok s.out
    else if leb capacity (length s.out)
    then err buffer_too_small
    else ok (s.out ++ (byte ∷ []))

abbrev pub no_bits : Encoder
no_bits = record { out = []; current_byte = 0; bit_count = 0 }

unfoldable pub huffman_encode : Buffer → Option ℕ → Result Bytes
huffman_encode src none = err invalid_parameter
huffman_encode src (some capacity) = do
  refuse (is_missing src) invalid_parameter
  (if length (contents src) == 0
      then ok []
      else (put_symbols capacity (contents src) no_bits >>= finish_encoding capacity))

-- `dest` up to `destOffset`, `currentCode` and `currentBitLen`.
pub record Decoder : Type 0 where
  pub out : Bytes
  pub current_code : ℕ
  pub current_bit_len : ℕ

-- What a symbol that was found does: the end of string is never emitted.
unfoldable pub emit : ℕ → Decoder → ℕ → Result Decoder
emit capacity s symbol =
    if symbol == 256
    then err invalid_network_response
    else if leb capacity (length s.out)
    then err buffer_too_small
    else ok (record { out = s.out ++ (symbol % 256 ∷ []); current_code = 0; current_bit_len = 0 })

unfoldable pub take_bit : ℕ → Decoder → ℕ → Result Decoder
take_bit capacity s bit =
    let code : ℕ = (s.current_code * 2 + bit) % 2 ^ 32 in
    let more : Decoder = record s {
      current_code = code;
      current_bit_len = s.current_bit_len + 1;
    } in
    if ltb 30 (s.current_bit_len + 1)
    then err invalid_network_response
    else elim (find_huffman_symbol code (s.current_bit_len + 1)) [
      | none ↦ ok more
      | some symbol ↦ emit capacity more symbol
    ]

-- The loop over the `left` lower bits of a byte.
unfoldable pub take_byte : ℕ → ℕ → ℕ → Decoder → Result Decoder
take_byte capacity zero byte s = ok s
take_byte capacity (suc left) byte s = do
  next ← take_bit capacity s (shr byte left % 2)
  take_byte capacity left byte next

unfoldable pub take_bytes : ℕ → Bytes → Decoder → Result Decoder
take_bytes capacity [] s = ok s
take_bytes capacity (b ∷ src) s = do next ← take_byte capacity 8 b s; take_bytes capacity src next

-- The tests of the padding.
unfoldable pub finish_decoding : Decoder → Result Bytes
finish_decoding s =
    let mask : ℕ = 2 ^ s.current_bit_len - 1 in
    if ltb 7 s.current_bit_len
    then err invalid_network_response
    else if ltb 0 s.current_bit_len && not (low_bits s.current_code s.current_bit_len == mask)
    then err invalid_network_response
    else ok s.out

abbrev pub no_code : Decoder
no_code = record { out = []; current_code = 0; current_bit_len = 0 }

unfoldable pub huffman_decode : Buffer → Option ℕ → Result Bytes
huffman_decode src none = err invalid_parameter
huffman_decode src (some capacity) = do
  refuse (is_missing src) invalid_parameter
  (if length (contents src) == 0
      then ok []
      else (take_bytes capacity (contents src) no_code >>= finish_decoding))
