-- ===== src/Http2/Frame/Base64Url.antt =====
-- The HTTP2-Settings value of an h2c upgrade: Base64UrlChar, Base64UrlEncode and
-- EncodeSettingsPayloadBase64Url of src/KernelHttpLib/http2/Http2Frame.cpp.
use win_kernel_http.Common.{
  ℕ, [], ◌∷◌, ◌++◌, ◌+◌, ◌-◌, ◌*◌, ◌/◌, ◌^◌, ◌≤◌, ◌<◌, ◌≡◌, refl, ◌∙◌, arith, Bool, true, ltb, leb,
  ◌==◌, if◌then◌else◌, Option, none, some, length, take, drop, All, length-append, inl, inr,
  Bool-cases, ◌⊎◌, ap, length-drop, take-length,
}
use win_kernel_http.Common.Base64.{sextet, decode_base64, plain_groups, quad, decode-plain_groups}
use win_kernel_http.Common.Buffer.{Bytes, IsByte, shr, low_bits, Buffer, null, bytes}
use win_kernel_http.Common.Status.{
  invalid_parameter, buffer_too_small, insufficient_resources, Result, ok, err, ◌>>=◌, ◌>>◌,
  require,
}
use mathlib.Core.List.{append-nil, append_assoc}
use win_kernel_http.Http2.Frame.{frame_header_length}
use win_kernel_http.Http2.Frame.Settings.{
  Settings, settings_payload, encode_settings, decode_settings_payload,
}
use win_kernel_http.Http2.Frame.Settings.Laws.{
  IsSettings, settings_round_trip, length-settings_payload, settings_payload-IsByte,
}

-- `Base64UrlChar`.
pub base64_url_char : ℕ → ℕ
base64_url_char value =
    if ltb value 26
    then b'A' + value
    else if ltb value 52
    then b'a' + (value - 26)
    else if ltb value 62
    then b'0' + (value - 52)
    else if value == 62
    then b'-'
    else b'_'

-- The loop of `Base64UrlEncode` and the two branches behind it; `out` is what has been stored,
-- and each group is tested against the capacity before it is written.
pub base64_url_loop : Bytes → Bytes → ℕ → Result Bytes
base64_url_loop (a ∷ b ∷ c ∷ rest) out capacity =
    let value = a * 2 ^ 16 + b * 2 ^ 8 + c in
    let more =
      base64_url_loop rest
        (out
          ++ (base64_url_char (low_bits (shr value 18) 6)
              ∷ base64_url_char (low_bits (shr value 12) 6)
              ∷ base64_url_char (low_bits (shr value 6) 6)
              ∷ base64_url_char (low_bits value 6)
              ∷ []))
        capacity in
    if ltb capacity (length out + 4) then err buffer_too_small else more
base64_url_loop (a ∷ b ∷ []) out capacity =
    let value = a * 2 ^ 16 + b * 2 ^ 8 in
    if ltb capacity (length out + 3)
    then err buffer_too_small
    else ok (
        out
        ++ (base64_url_char (low_bits (shr value 18) 6)
            ∷ base64_url_char (low_bits (shr value 12) 6)
            ∷ base64_url_char (low_bits (shr value 6) 6)
            ∷ []))
base64_url_loop (a ∷ []) out capacity =
    let value = a * 2 ^ 16 in
    if ltb capacity (length out + 2)
    then err buffer_too_small
    else ok (
        out
        ++ (base64_url_char (low_bits (shr value 18) 6)
            ∷ base64_url_char (low_bits (shr value 12) 6)
            ∷ []))
base64_url_loop [] out capacity = ok out

-- `Base64UrlEncode`; the text's length is `*outputLength`.
pub base64_url_encode : Buffer → Option ℕ → Result Bytes
base64_url_encode (null n) dest = err invalid_parameter
base64_url_encode (bytes input) none = err invalid_parameter
base64_url_encode (bytes input) (some capacity) = base64_url_loop input [] capacity

-- `EncodeSettingsPayloadBase64Url`. `allocated` says whether the heap gave the frame's buffer.
pub encode_settings_payload_base64_url : Bool → Settings → Option ℕ → Result Bytes
encode_settings_payload_base64_url allocated s none = err invalid_parameter
encode_settings_payload_base64_url allocated s (some capacity) = do
  require allocated insufficient_resources
  frame ← encode_settings s (some (frame_header_length + 7 * 6))
  base64_url_encode
      (bytes (take (frame.count - frame_header_length) (drop frame_header_length frame.stored)))
      (some capacity)

sextet-base64_url_char : (v : ℕ) → v < 64 → sextet b'-' (base64_url_char v) ≡ v
unfolding base64_url_char sextet
sextet-base64_url_char v h = ground arith

-- The characters that `n` bytes take: four for three, then two or three for one or two.
abbrev pub base64_url_length : Bytes → ℕ
base64_url_length (a ∷ b ∷ c ∷ rest) = 4 + base64_url_length rest
base64_url_length (a ∷ b ∷ []) = 3
base64_url_length (a ∷ []) = 2
base64_url_length [] = 0

one_group :
    (stored later capacity : ℕ) (more : Result Bytes) (text : Bytes)
    → (stored + 4 ≤ capacity
        → more ≡ (if leb (stored + 4 + later) capacity then ok text else err buffer_too_small))
    → (if ltb capacity (stored + 4) then err buffer_too_small else more)
      ≡ (if leb (stored + (4 + later)) capacity then ok text else err buffer_too_small)
one_group stored later capacity more text ih = elim (Bool-cases (ltb capacity (stored + 4))) [
  | inl small ↦ ground arith
  | inr fits ↦ ground (arith, ih (ground arith))
]

pub base64_url_length_lem : (input : Bytes) → base64_url_length input ≡ (4 * length input + 2) / 3
base64_url_length_lem (a ∷ b ∷ c ∷ rest) = omega (arith, base64_url_length_lem rest)
base64_url_length_lem (a ∷ b ∷ []) = refl
base64_url_length_lem (a ∷ []) = refl
base64_url_length_lem [] = refl

base64_url_loop-plain_groups :
    (input out : Bytes) (capacity : ℕ)
    → length out ≤ capacity
    → base64_url_loop input out capacity ≡ (
        if leb (length out + base64_url_length input) capacity
        then ok (out ++ plain_groups base64_url_char input)
        else err buffer_too_small)
unfolding base64_url_loop plain_groups
base64_url_loop-plain_groups (a ∷ b ∷ c ∷ rest) out capacity h =
    let group = quad base64_url_char (a * 2 ^ 16 + b * 2 ^ 8 + c) in
    one_group (length out) (base64_url_length rest) capacity _ _ λ fits.
      base64_url_loop-plain_groups rest (out ++ group) capacity
        (omega (arith, length-append out group))
      ∙ rw (length-append out group, append_assoc out group (plain_groups base64_url_char rest))
base64_url_loop-plain_groups (a ∷ b ∷ []) out capacity h = ground arith
base64_url_loop-plain_groups (a ∷ []) out capacity h = ground arith
base64_url_loop-plain_groups [] out capacity h = ground (arith, append-nil out)

-- On any bytes, `Base64UrlEncode` succeeds exactly when the text fits, and then an independent
-- reading of the text gives the bytes back.
pub base64_url_round_trip :
    (input : Bytes) (capacity : ℕ)
    → All IsByte input
    → ((base64_url_encode (bytes input) (some capacity) ≡ err buffer_too_small)
        × (capacity < base64_url_length input))
      ⊎ ((text : Bytes) × (base64_url_encode (bytes input) (some capacity) ≡ ok text)
          × (base64_url_length input ≤ capacity)
          × (decode_base64 b'-' text ≡ input))
unfolding base64_url_encode
base64_url_round_trip input capacity h =
    elim (Bool-cases (leb (base64_url_length input) capacity)) [
      | inl fits ↦ inr (
        plain_groups base64_url_char input,
        ground (arith, whole),
        ground arith,
        decode-plain_groups base64_url_char b'-' sextet-base64_url_char input h,
      )
      | inr small ↦ inl (ground (arith, whole), ground arith)
    ]
  where
    whole : base64_url_loop input [] capacity ≡ (
        if leb (0 + base64_url_length input) capacity
        then ok (plain_groups base64_url_char input)
        else err buffer_too_small)
    whole = base64_url_loop-plain_groups input [] capacity (omega arith)

length-plain_groups :
    (input : Bytes) → length (plain_groups base64_url_char input) ≡ base64_url_length input
unfolding plain_groups
length-plain_groups (a ∷ b ∷ c ∷ rest) = omega (arith, length-plain_groups rest)
length-plain_groups (a ∷ b ∷ []) = refl
length-plain_groups (a ∷ []) = refl
length-plain_groups [] = refl

base64_url_length-settings_payload : (s : Settings) → base64_url_length (settings_payload s) ≡ 56
base64_url_length-settings_payload s =
    omega (arith, base64_url_length_lem (settings_payload s), length-settings_payload s)

-- For settings within the limits of the protocol, room for 56 characters and a frame that could be
-- allocated, the HTTP2-Settings text is written in exactly 56 characters, and reading it as
-- base64url and then as a SETTINGS payload gives the same settings, whatever they were before.
pub upgrade_settings_round_trip :
    (s before : Settings) (capacity : ℕ)
    → IsSettings s
    → 56 ≤ capacity
    → (text : Bytes) × (encode_settings_payload_base64_url true s (some capacity) ≡ ok text)
      × (length text ≡ 56)
      × (decode_settings_payload (bytes (decode_base64 b'-' text)) before ≡ (s, none))
unfolding encode_settings_payload_base64_url
upgrade_settings_round_trip s before capacity v c =
    let ((w, e, f), d) = settings_round_trip s before 51 v (omega arith) in
    let size = length-settings_payload s in
    let text = plain_groups base64_url_char (settings_payload s) in
    let whole = base64_url_loop-plain_groups (settings_payload s) [] capacity (omega arith) in
    let n : w.count - frame_header_length ≡ length (settings_payload s) =
      omega (arith, f.counts, length-drop 9 w.stored, ap length f.carries) in
    (
      text,
      rw (e, f.carries, n, take-length (settings_payload s))
          (unfold base64_url_encode in
            whole ∙ ground (arith, base64_url_length-settings_payload s)),
      length-plain_groups (settings_payload s) ∙ base64_url_length-settings_payload s,
      rw
          (decode-plain_groups base64_url_char b'-' sextet-base64_url_char (settings_payload s)
            (settings_payload-IsByte s))
          d,
    )
