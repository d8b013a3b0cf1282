-- ===== src/Common/Base64.antt =====
-- An independent reading of base64 text: four characters stand for three bytes, and a last group
-- of two or three characters for one or two.
use Prim.Native.Nat.{ℕ, ◌+◌, ◌-◌, ◌*◌, ◌/◌, ◌%◌, ◌^◌, ◌<◌}
use mathlib.Core.Path.{◌≡◌, refl}
use mathlib.Core.List.{[], ◌∷◌, ◌++◌}
use native.Mathlib.Omega.{arith}
use win_kernel_http.Common.Tests.{ltb, ◌==◌, if◌then◌else◌}
use win_kernel_http.Common.Lists.{All}
use win_kernel_http.Common.Buffer.{Bytes, IsByte, shr, low_bits}

-- The sextet of a character, where `plus` and `slash` stand for 62 and 63.
unfoldable pub sextet : ℕ → ℕ → ℕ
sextet plus c =
    if c == plus
    then 62
    else if ltb c b'A'
    then (if ltb c b'0' then 63 else if ltb b'9' c then 63 else c - b'0' + 52)
    else if ltb b'Z' c
    then (if ltb c b'a' then 63 else if ltb b'z' c then 63 else c - b'a' + 26)
    else c - b'A'

-- The bytes that unpadded text stands for.
unfoldable pub decode_base64 : ℕ → Bytes → Bytes
decode_base64 plus (w ∷ x ∷ y ∷ z ∷ rest) =
    (sextet plus w * 4 + sextet plus x / 16)
    ∷ (sextet plus x % 16 * 16 + sextet plus y / 4)
    ∷ (sextet plus y % 4 * 64 + sextet plus z)
    ∷ decode_base64 plus rest
decode_base64 plus (w ∷ x ∷ y ∷ []) =
    (sextet plus w * 4 + sextet plus x / 16) ∷ (sextet plus x % 16 * 16 + sextet plus y / 4) ∷ []
decode_base64 plus (w ∷ x ∷ []) = (sextet plus w * 4 + sextet plus x / 16) ∷ []
decode_base64 plus _ = []

-- The groups that both encoders of the program write, for the alphabet `char`.
module _ (char : ℕ → ℕ) where
  abbrev pub quad : ℕ → Bytes
  quad value =
      char (low_bits (shr value 18) 6)
      ∷ char (low_bits (shr value 12) 6)
      ∷ char (low_bits (shr value 6) 6)
      ∷ char (low_bits value 6)
      ∷ []

  -- Without padding.
  unfoldable pub plain_groups : Bytes → Bytes
  plain_groups (a ∷ b ∷ c ∷ rest) = quad (a * 2 ^ 16 + b * 2 ^ 8 + c) ++ plain_groups rest
  plain_groups (a ∷ b ∷ []) =
      let value = a * 2 ^ 16 + b * 2 ^ 8 in
      char (low_bits (shr value 18) 6)
      ∷ char (low_bits (shr value 12) 6)
      ∷ char (low_bits (shr value 6) 6)
      ∷ []
  plain_groups (a ∷ []) =
      let value = a * 2 ^ 16 in
      char (low_bits (shr value 18) 6) ∷ char (low_bits (shr value 12) 6) ∷ []
  plain_groups [] = []

  -- Reading the groups back gives the bytes, for an alphabet that `sextet` inverts.
  pub decode-plain_groups :
      (plus : ℕ)
      → ((v : ℕ) → v < 64 → sextet plus (char v) ≡ v)
      → (data_ : Bytes) → All IsByte data_
      → decode_base64 plus (plain_groups data_) ≡ data_
  unfolding decode_base64 plain_groups
  decode-plain_groups plus inv (a ∷ b ∷ c ∷ rest) h =
      let v = a * 2 ^ 16 + b * 2 ^ 8 + c in
      ground (
        arith,
        inv (low_bits (shr v 18) 6) (omega arith),
        inv (low_bits (shr v 12) 6) (omega arith),
        inv (low_bits (shr v 6) 6) (omega arith),
        inv (low_bits v 6) (omega arith),
        decode-plain_groups plus inv rest h.1.1.1,
      )
  decode-plain_groups plus inv (a ∷ b ∷ []) h =
      let v = a * 2 ^ 16 + b * 2 ^ 8 in
      ground (
        arith,
        inv (low_bits (shr v 18) 6) (omega arith),
        inv (low_bits (shr v 12) 6) (omega arith),
        inv (low_bits (shr v 6) 6) (omega arith),
      )
  decode-plain_groups plus inv (a ∷ []) h =
      let v = a * 2 ^ 16 in
      ground (
        arith,
        inv (low_bits (shr v 18) 6) (omega arith),
        inv (low_bits (shr v 12) 6) (omega arith),
      )
  decode-plain_groups plus inv [] h = refl
