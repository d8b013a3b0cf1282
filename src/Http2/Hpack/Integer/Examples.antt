-- ===== src/Http2/Hpack/Integer/Examples.antt =====
-- Concrete integers of RFC 7541, appendix C.1, for src/KernelHttpLib/http2/Hpack.cpp.
use win_kernel_http.Common.{[], ◌∷◌, ◌++◌, ◌≤◌, ◌≡◌, refl, some, length, arith}
use win_kernel_http.Common.Buffer.{Bytes, bytes, byte_at}
use win_kernel_http.Common.Status.{ok}
use win_kernel_http.Http2.Hpack.Integer.{high_bits, encode_integer, decode_integer, decode_rest}
use win_kernel_http.Http2.Hpack.Integer.RoundTrip.{integer_round_trip}

integer_round_trip_example :
    (out : Bytes) × (encode_integer 1337 0x60 5 (some 16) ≡ ok out)
    × (length out ≤ 6)
    × (high_bits (byte_at out 0) 5 ≡ high_bits 0x60 5)
    × ((rest : Bytes) → decode_integer (bytes (out ++ rest)) 5 ≡ ok (1337, length out))
integer_round_trip_example = integer_round_trip 1337 0x60 5 16 (omega arith) refl (omega arith)

abbrev encoded_1337 : Bytes
encoded_1337 = 31 ∷ 154 ∷ 10 ∷ 0 ∷ []

decoded_1337 : decode_integer (bytes encoded_1337) 5 ≡ ok (1337, 3)
unfolding decode_integer decode_rest
decoded_1337 = refl
