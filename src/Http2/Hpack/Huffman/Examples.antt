-- ===== src/Http2/Hpack/Huffman/Examples.antt =====
-- Huffman strings of RFC 7541, appendix C, for src/KernelHttpLib/http2/Hpack.cpp.
use win_kernel_http.Common.{[], ◌∷◌, ◌≤◌, ◌≡◌, refl, some, All, length, arith}
use win_kernel_http.Common.Buffer.{Bytes, IsByte, bytes}
use win_kernel_http.Common.Status.{ok}
use win_kernel_http.Common.Text.{codes}
use win_kernel_http.Http2.Hpack.Huffman.{
  huffman_symbol, candidates, find_among, find_huffman_symbol, total_bits, huffman_encoded_length,
  huffman_encode, put_bit, put_code, put_symbols, finish_encoding, huffman_decode, emit, take_bit,
  take_byte, take_bytes, finish_decoding,
}
use win_kernel_http.Http2.Hpack.Huffman.RoundTrip.{huffman_round_trip}
use win_kernel_http.Http2.Hpack.Huffman.Canonical.{huffman_decode_sound}

abbrev text : Bytes
text = codes "www.example.com"

abbrev coded : Bytes
coded = 0xf1 ∷ 0xe3 ∷ 0xc2 ∷ 0xe5 ∷ 0xf2 ∷ 0x3a ∷ 0x6b ∷ 0xa0 ∷ 0xab ∷ 0x90 ∷ 0xf4 ∷ 0xff ∷ []

text_encoded : huffman_encode (bytes text) (some 12) ≡ ok coded
unfolding huffman_encode put_symbols put_code put_bit finish_encoding huffman_symbol
text_encoded = refl

text_decoded : huffman_decode (bytes coded) (some 15) ≡ ok text
unfolding huffman_decode take_bytes take_byte take_bit emit finish_decoding find_huffman_symbol
    find_among candidates huffman_symbol
text_decoded = refl

huffman_round_trip_example :
    (out : Bytes) × (huffman_encode (bytes (0x77 ∷ 0x2e ∷ [])) (some 4) ≡ ok out)
    × (length out ≡ huffman_encoded_length (bytes (0x77 ∷ 0x2e ∷ [])))
    × (huffman_decode (bytes out) (some 2) ≡ ok (0x77 ∷ 0x2e ∷ []))
unfolding huffman_encoded_length total_bits huffman_symbol
huffman_round_trip_example =
    huffman_round_trip (0x77 ∷ 0x2e ∷ []) 4 2 (omega arith, (omega arith, tt)) (omega arith)
      (omega arith) (omega arith)

huffman_decode_sound_example :
    (huffman_encode (bytes text) (some 12) ≡ ok coded) × All IsByte text × (15 ≤ 15)
huffman_decode_sound_example =
    huffman_decode_sound 15 coded text
      (
        omega arith,
        (
          omega arith,
          (
            omega arith,
            (
              omega arith,
              (
                omega arith,
                (
                  omega arith,
                  (
                    omega arith,
                    (omega arith, (omega arith, (omega arith, (omega arith, (omega arith, tt))))),
                  ),
                ),
              ),
            ),
          ),
        ),
      )
      text_decoded
