-- ===== src/Http2/Hpack/Huffman/RoundTrip.antt =====
-- HpackHuffmanEncode, HpackHuffmanDecode and HpackHuffmanEncodedLength of
-- src/KernelHttpLib/http2/Hpack.cpp together.
use win_kernel_http.Common.{
  ℕ, [], ◌∷◌, ◌++◌, ◌+◌, ◌-◌, ◌*◌, ◌/◌, ◌%◌, ◌^◌, ◌≤◌, ◌<◌, ◌≡◌, refl, All, length, arith, ap, sym,
  ◌∙◌, length-append, some, ltb, ◌==◌, false,
}
use win_kernel_http.Common.Buffer.{Bytes, IsByte, bytes}
use win_kernel_http.Common.Status.{ok, ◌>>=◌}
use native.Mathlib.Nat.{mod-eq_of_lt, one-le-pow}
use win_kernel_http.Http2.Hpack.Huffman.Bits.{unpack, ones, length-unpack, length-ones}
use win_kernel_http.Http2.Hpack.Huffman.Search.{symbol_bounds}
use win_kernel_http.Http2.Hpack.Huffman.Runs.{message, run_bits-append}
use win_kernel_http.Http2.Hpack.Huffman.Packing.{length-message, Packs, huffman_encode-Packs}
use win_kernel_http.Http2.Hpack.Huffman.Reading.{
  take_bytes-run_bits, reading, read_message, read_ones,
}
use win_kernel_http.Http2.Hpack.Huffman.{
  total_bits, huffman_encoded_length, huffman_encode, take_bit, take_bytes, finish_decoding,
  no_code, huffman_decode,
}

-- The test for an empty input changes nothing.
pub huffman_decode_lem :
    (src : Bytes) (capacity : ℕ)
    → huffman_decode (bytes src) (some capacity)
      ≡ (take_bytes capacity src no_code >>= finish_decoding)
unfolding huffman_decode take_bytes finish_decoding
huffman_decode_lem [] capacity = refl
huffman_decode_lem (b ∷ src) capacity =
    let filled : (length (b ∷ src) == 0) ≡ false = ground arith in rw filled refl

finish_padding :
    (out : Bytes) (j : ℕ) → j < 8 → finish_decoding (reading out (2 ^ j - 1) j) ≡ ok out
unfolding finish_decoding
finish_padding out j h =
    let low = one-le-pow j 2 (omega arith) in
    let exact : (2 ^ j - 1) % 2 ^ j ≡ 2 ^ j - 1 = mod-eq_of_lt (omega arith) in
    let few : ltb 7 j ≡ false = ground arith in rw (few, exact) (ground arith)

pub huffman_decode-Packs :
    (capacity : ℕ) (src out : Bytes)
    → All IsByte src
    → length src ≤ capacity
    → Packs out (message src)
    → huffman_decode (bytes out) (some capacity) ≡ ok src
huffman_decode-Packs capacity src out h room (_, j, few, same) =
    rw
      (
        huffman_decode_lem out capacity,
        take_bytes-run_bits capacity out no_code,
        same,
        run_bits-append (take_bit capacity) no_code (message src) (ones j),
        read_message capacity src [] h (omega arith),
        read_ones capacity 0 j j src (omega arith) few,
      )
      (finish_padding src j few)

total_bits_bound : (src : Bytes) → All IsByte src → total_bits src ≤ 30 * length src
unfolding total_bits
total_bits_bound [] h = omega arith
total_bits_bound (b ∷ src) h =
    omega (arith, symbol_bounds b (omega (arith, h.0)), total_bits_bound src (h.1))

pub encoded_length_lem :
    (src : Bytes)
    → All IsByte src
    → 30 * length src + 7 < 2 ^ 64
    → huffman_encoded_length (bytes src) ≡ (total_bits src + 7) / 8
unfolding huffman_encoded_length total_bits
encoded_length_lem [] h small = refl
encoded_length_lem (b ∷ src) h small =
    let bound = total_bits_bound (b ∷ src) h in
    let exact : (total_bits (b ∷ src) + 7) % 2 ^ 64 ≡ total_bits (b ∷ src) + 7 =
      mod-eq_of_lt (omega arith) in
    let filled : (length (b ∷ src) == 0) ≡ false = ground arith in rw (filled, exact) refl

pub length-Packs :
    (src out : Bytes) → Packs out (message src) → length out ≡ (total_bits src + 7) / 8
length-Packs src out (_, j, few, same) =
    let whole = length-unpack out in
    let sum = length-append (message src) (ones j) in
    let parts : length (unpack out) ≡ length (message src ++ ones j) = ap length same in
    omega (arith, length-message src, length-ones j)

-- Every string of n bytes, with 30 n + 7 below 2^64, is encoded where the destination takes
-- HpackHuffmanEncodedLength bytes: exactly that many are written, and decoding them where the
-- string fits gives the string back.
pub huffman_round_trip :
    (src : Bytes) (capacity room : ℕ)
    → All IsByte src
    → 30 * length src + 7 < 2 ^ 64
    → huffman_encoded_length (bytes src) ≤ capacity
    → length src ≤ room
    → (out : Bytes) × (huffman_encode (bytes src) (some capacity) ≡ ok out)
      × (length out ≡ huffman_encoded_length (bytes src))
      × (huffman_decode (bytes out) (some room) ≡ ok src)
huffman_round_trip src capacity room h small fits held =
    let size = encoded_length_lem src h small in
    let (out, e, packed) = huffman_encode-Packs src capacity (omega arith) in
    (
      out,
      e,
      length-Packs src out packed ∙ sym size,
      huffman_decode-Packs room src out h held packed,
    )
