-- ===== src/WebSocket/Base64.antt =====
-- Base64Encode and Base64Char of src/KernelHttpLib/websocket/WebSocketFrame.cpp.
use win_kernel_http.Common.{
  ℕ, [], ◌∷◌, ◌++◌, ◌+◌, ◌-◌, ◌*◌, ◌/◌, ◌%◌, ◌^◌, ◌≤◌, ◌<◌, ◌≡◌, refl, true, ltb, ◌==◌,
  if◌then◌else◌, Option, none, some, length, All, arith,
}
use win_kernel_http.Common.Bits.{every_below, every_below_at}
use win_kernel_http.Common.Buffer.{
  Bytes, IsByte, Buffer, bytes, shr, low_bits, byte_at, buffer_length, contents, is_missing,
  Outcome, fails,
}
use win_kernel_http.Common.Base64.{sextet, decode_base64, quad, plain_groups, decode-plain_groups}
use win_kernel_http.Common.Status.{invalid_parameter, buffer_too_small, integer_overflow}
use win_kernel_http.Common.Text.{codes}
use win_kernel_http.Common.{==_iff}

abbrev alphabet : Bytes
alphabet = codes "ABCDEFGHIJKLMNOPQRSTUVWXYZabcdefghijklmnopqrstuvwxyz0123456789+/"

unfoldable pub base64_char : ℕ → ℕ
base64_char value = byte_at alphabet (low_bits value 6)

-- The loop of `Base64Encode` and the two branches behind it, on the bytes from `input` on.
unfoldable pub base64_groups : Bytes → Bytes
base64_groups (a ∷ b ∷ c ∷ rest) =
    quad base64_char (a * 2 ^ 16 + b * 2 ^ 8 + c) ++ base64_groups rest
base64_groups (a ∷ b ∷ []) =
    let value = a * 2 ^ 16 + b * 2 ^ 8 in
    base64_char (low_bits (shr value 18) 6)
    ∷ base64_char (low_bits (shr value 12) 6)
    ∷ base64_char (low_bits (shr value 6) 6)
    ∷ b'='
    ∷ []
base64_groups (a ∷ []) =
    let value = a * 2 ^ 16 in
    base64_char (low_bits (shr value 18) 6)
    ∷ base64_char (low_bits (shr value 12) 6)
    ∷ b'='
    ∷ b'='
    ∷ []
base64_groups [] = []

abbrev pub required_length : ℕ → ℕ
required_length n = (n + 2) / 3 * 4

-- `Base64Encode`; a null `destination` is `none`, and `count` is what `*bytesWritten` is left as.
unfoldable pub base64_encode : Buffer → Option ℕ → Outcome
base64_encode data_ none = fails invalid_parameter
base64_encode data_ (some capacity) =
    let required = required_length (buffer_length data_) in
    let text = base64_groups (contents data_) in
    if is_missing data_
    then fails invalid_parameter
    else if ltb ((2 ^ 64 - 1) / 4 * 3) (buffer_length data_)
    then fails integer_overflow
    else if ltb capacity required
    then record { status = some buffer_too_small; stored = []; count = required }
    else record { status = none; stored = text; count = length text }

sextet_table : every_below 64 (λ v. sextet b'+' (base64_char v) == v) ≡ true
unfolding every_below base64_char sextet
sextet_table = refl

sextet-base64_char : (v : ℕ) → v < 64 → sextet b'+' (base64_char v) ≡ v
sextet-base64_char v h =
    (==_iff _ v).0 (every_below_at 64 (λ w. sextet b'+' (base64_char w) == w) v sextet_table h)

-- How many `=` stand behind the groups of `n` bytes.
abbrev pub padding : ℕ → Bytes
padding n = if n % 3 == 0 then [] else if n % 3 == 1 then b'=' ∷ b'=' ∷ [] else b'=' ∷ []

pub base64_groups-plain_groups :
    (xs : Bytes) → base64_groups xs ≡ plain_groups base64_char xs ++ padding (length xs)
unfolding base64_groups plain_groups
base64_groups-plain_groups (a ∷ b ∷ c ∷ rest) = ground (arith, base64_groups-plain_groups rest)
base64_groups-plain_groups (a ∷ b ∷ []) = refl
base64_groups-plain_groups (a ∷ []) = refl
base64_groups-plain_groups [] = refl

pub length-base64_groups : (xs : Bytes) → length (base64_groups xs) ≡ required_length (length xs)
unfolding base64_groups
length-base64_groups (a ∷ b ∷ c ∷ rest) = omega (arith, length-base64_groups rest)
length-base64_groups (a ∷ b ∷ []) = refl
length-base64_groups (a ∷ []) = refl
length-base64_groups [] = refl

-- A sequence of bytes below the limit of `Base64Encode`, with room for four characters for each
-- begun group of three, is written as exactly that many characters: a text that an independent
-- reading turns back into the bytes, and the padding that the length calls for.
pub base64_encode_round_trip :
    (xs : Bytes) (capacity : ℕ)
    → All IsByte xs
    → length xs ≤ (2 ^ 64 - 1) / 4 * 3
    → required_length (length xs) ≤ capacity
    → (text : Bytes) × (base64_encode (bytes xs) (some capacity) ≡ record {
      status = none;
      stored = text ++ padding (length xs);
      count = required_length (length xs);
    })
      × (decode_base64 b'+' text ≡ xs)
unfolding base64_encode
base64_encode_round_trip xs capacity h small room = (
  plain_groups base64_char xs,
  ground (arith, base64_groups-plain_groups xs, length-base64_groups xs),
  decode-plain_groups base64_char b'+' sextet-base64_char xs h,
)
