-- ===== src/Http2/Hpack/Integer.antt =====
-- HpackEncodeInteger and HpackDecodeInteger of src/KernelHttpLib/http2/Hpack.cpp. A null `dest` or
-- `bytesWritten` is `none`; the bytes written are as many as `*bytesWritten` says.
use win_kernel_http.Common.{
  ℕ, zero, suc, List, [], ◌∷◌, ◌++◌, ◌+◌, ◌-◌, ◌*◌, ◌/◌, ◌%◌, ◌^◌, ◌≤◌, ◌<◌, Bool, true, false, not,
  ◌&&◌, ◌||◌, ltb, leb, ◌==◌, if◌then◌else◌, Option, none, some, length, drop, lt_wf, arith,
}
use win_kernel_http.Common.Buffer.{Bytes, Buffer, null, bytes, shr, low_bits, has_bit, byte_at}
use win_kernel_http.Common.Status.{
  invalid_parameter, buffer_too_small, more_processing_required, integer_overflow, Result, ok, err,
}
use mathlib.Core.Logic.{dite}
use mathlib.Core.WellFounded.{Acc}
use native.Mathlib.Decide.{dec_lt}
pub mod RoundTrip
mod Examples

-- `(1u << prefixBits) - 1`
abbrev pub max_prefix : ℕ → ℕ
max_prefix bits = 2 ^ bits - 1

-- `prefix & prefixMask`: the bits above the integer's.
abbrev pub high_bits : ℕ → ℕ → ℕ
high_bits prefix bits = prefix / 2 ^ bits * 2 ^ bits

-- `prefixBits == 0 || prefixBits > 8`
abbrev pub is_bad_prefix : ℕ → Bool
is_bad_prefix bits = bits == 0 || ltb 8 bits

-- The `while (value >= 128)` loop of `HpackEncodeInteger` and the write behind it; `out` is what
-- stands in `dest` so far.
unfoldable pub encode_rest : (value : ℕ) → Acc ◌<◌ value → Bytes → ℕ → Result Bytes
encode_rest value (Acc.intro _ smaller) out capacity =
    dite (dec_lt 127 value)
      (λ big.
        let more =
          encode_rest (value / 128) (smaller (value / 128) (omega arith))
            (out ++ ((low_bits value 7 + 0x80) ∷ [])) capacity in
        if leb capacity (length out) then err buffer_too_small else more)
      (λ _. if leb capacity (length out) then err buffer_too_small else ok (out ++ (value ∷ [])))

unfoldable pub encode_integer : ℕ → ℕ → ℕ → Option ℕ → Result Bytes
encode_integer value prefix bits none = err invalid_parameter
encode_integer value prefix bits (some capacity) =
    if is_bad_prefix bits
    then err invalid_parameter
    else if ltb value (max_prefix bits)
    then (if ltb capacity 1
        then err buffer_too_small
        else ok ((high_bits prefix bits + value) ∷ []))
    else if ltb capacity 1
    then err buffer_too_small
    else encode_rest (value - max_prefix bits) (lt_wf.apply (value - max_prefix bits))
        ((high_bits prefix bits + max_prefix bits) ∷ []) capacity

-- The loop of `HpackDecodeInteger` on the bytes from `offset` on, before `continuationBytes` is
-- counted up.
unfoldable pub decode_rest : Bytes → ℕ → ℕ → ℕ → ℕ → Result (ℕ × ℕ)
decode_rest [] result m continuation_bytes offset = err more_processing_required
decode_rest (b ∷ rest) result m continuation_bytes offset =
    let chunk = low_bits b 7 in
    let increment = low_bits (chunk * 2 ^ m) 32 in
    let more =
      decode_rest rest (result + increment) (m + 7) (continuation_bytes + 1) (offset + 1) in
    if ltb 5 (continuation_bytes + 1)
    then err integer_overflow
    else if leb 32 m || (leb 28 m && ltb 0x0f chunk)
    then err integer_overflow
    else if ltb (2 ^ 32 - 1 - increment) result
    then err integer_overflow
    else if not (has_bit b 7)
    then ok (result + increment, offset + 1)
    else more

-- The value and `*bytesConsumed`.
unfoldable pub decode_integer : Buffer → ℕ → Result (ℕ × ℕ)
decode_integer (null n) bits = err invalid_parameter
decode_integer (bytes src) bits =
    let result = low_bits (byte_at src 0) bits in
    if is_bad_prefix bits || length src == 0
    then err invalid_parameter
    else if ltb result (max_prefix bits)
    then ok (result, 1)
    else decode_rest (drop 1 src) result 0 0 1
