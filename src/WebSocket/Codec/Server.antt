-- ===== src/WebSocket/Codec/Server.antt =====
-- A server's reading of a masked frame by RFC 6455, sections 5.2 and 5.3, for what EncodeClientFrame
-- of src/KernelHttpLib/websocket/WebSocketFrame.cpp writes.
use win_kernel_http.Common.{
  ℕ, [], ◌∷◌, ◌++◌, ◌+◌, ◌-◌, ◌*◌, ◌/◌, ◌%◌, ◌^◌, ◌≤◌, ◌<◌, ◌≡◌, refl, sym, ap, ◌∙◌, arith, inl,
  inr, Bool, true, false, not, ltb, leb, ◌==◌, if◌then◌else◌, Bool-cases, Option, none, some,
  length, take, drop, bit_xor, All, take-append, drop-append, length-append,
}
use win_kernel_http.Common.Buffer.{Bytes, IsByte, byte_at, shr, low_bits}
use win_kernel_http.WebSocket.Codec.{Opcode, continuation, reserved, opcode_code, apply_mask}
use win_kernel_http.WebSocket.Codec.Masking.{apply_mask_twice, length-apply_mask}
use win_kernel_http.WebSocket.Codec.Fields.{
  IsOpcode, first_byte, size_bytes, size_bytes_lem, size_code, size_tail, second_byte,
}

pub record Received : Type 0 where
  pub fin : Bool
  pub opcode : ℕ
  pub payload : Bytes
  pub behind : Bytes

-- The number that bytes denote, the most significant one first.
abbrev pub big_endian : Bytes → ℕ
big_endian [] = 0
big_endian (x ∷ xs) = x * 256 ^ length xs + big_endian xs

-- The octets of the key in turn.
unfoldable pub unmask : (a b c d : ℕ) → Bytes → Bytes
unmask a b c d [] = []
unmask a b c d (x ∷ xs) = bit_xor x a ∷ unmask b c d a xs

-- The key and `n` bytes of payload.
abbrev pub read_payload : Bool → ℕ → ℕ → Bytes → Option Received
read_payload fin opcode n (a ∷ b ∷ c ∷ d ∷ rest) =
    if ltb (length rest) n
    then none
    else some (record {
      fin = fin;
      opcode = opcode;
      payload = unmask a b c d (take n rest);
      behind = drop n rest;
    })
read_payload fin opcode n _ = none

-- The length by its code: seven bits, or two or eight bytes more.
unfoldable pub read_sized : Bool → ℕ → ℕ → Bytes → Option Received
read_sized fin opcode code rest =
    if leb code 125
    then read_payload fin opcode code rest
    else if code == 126
    then read_payload fin opcode (big_endian (take 2 rest)) (drop 2 rest)
    else read_payload fin opcode (big_endian (take 8 rest)) (drop 8 rest)

unfoldable pub read_masked : Bytes → Option Received
read_masked (first ∷ second ∷ rest) =
    if not (first / 16 % 8 == 0)
    then none
    else if ltb second 0x80
    then none
    else read_sized (leb 0x80 first) (first % 16) (second - 0x80) rest
read_masked _ = none

apply_mask-unmask :
    (key : Bytes) (a b c d i : ℕ) (xs : Bytes)
    → byte_at key (i % 4) ≡ a
    → byte_at key ((i + 1) % 4) ≡ b
    → byte_at key ((i + 2) % 4) ≡ c
    → byte_at key ((i + 3) % 4) ≡ d
    → apply_mask key i xs ≡ unmask a b c d xs
unfolding apply_mask unmask
apply_mask-unmask key a b c d i [] p q r s = refl
apply_mask-unmask key a b c d i (x ∷ xs) p q r s =
    let third : (i + 1 + 1) % 4 ≡ (i + 2) % 4 = omega arith in
    let fourth : (i + 1 + 2) % 4 ≡ (i + 3) % 4 = omega arith in
    let again : (i + 1 + 3) % 4 ≡ i % 4 = omega arith in
    rw
      (
        p,
        apply_mask-unmask key b c d a (i + 1) xs q (ap (byte_at key) third ∙ r)
            (ap (byte_at key) fourth ∙ s) (ap (byte_at key) again ∙ p),
      )
      refl

-- The key is undone by itself.
unmask-apply_mask :
    (a b c d : ℕ) (payload : Bytes)
    → All IsByte (a ∷ b ∷ c ∷ d ∷ [])
    → All IsByte payload
    → unmask a b c d (apply_mask (a ∷ b ∷ c ∷ d ∷ []) 0 payload) ≡ payload
unmask-apply_mask a b c d payload hk hp =
    let key : Bytes = a ∷ b ∷ c ∷ d ∷ [] in
    sym (apply_mask-unmask key a b c d 0 (apply_mask key 0 payload) refl refl refl refl)
    ∙ apply_mask_twice key payload 0 hk hp

-- The key and the masked payload behind it.
read_payload-masked :
    (fin : Bool) (opcode a b c d : ℕ) (payload rest : Bytes)
    → All IsByte payload
    → All IsByte (a ∷ b ∷ c ∷ d ∷ [])
    → read_payload fin opcode
        (length payload)
        (a ∷ b ∷ c ∷ d ∷ (apply_mask (a ∷ b ∷ c ∷ d ∷ []) 0 payload ++ rest))
      ≡ some (record { fin = fin; opcode = opcode; payload = payload; behind = rest })
read_payload-masked fin opcode a b c d payload rest hp hk =
    let coded = apply_mask (a ∷ b ∷ c ∷ d ∷ []) 0 payload in
    let size : length coded ≡ length payload = length-apply_mask (a ∷ b ∷ c ∷ d ∷ []) payload 0 in
    let fits : ltb (length (coded ++ rest)) (length payload) ≡ false =
      ground (arith, length-append coded rest, size) in
    let cut : take (length payload) (coded ++ rest) ≡ coded =
      rw (← size) (take-append coded rest) in
    let left : drop (length payload) (coded ++ rest) ≡ rest =
      rw (← size) (drop-append coded rest) in
    rw (fits, cut, left, unmask-apply_mask a b c d payload hk hp) refl

-- The length field in each of its forms.
read_sized-size_tail :
    (fin : Bool) (opcode n : ℕ) (rest : Bytes)
    → n < 2 ^ 63
    → read_sized fin opcode (size_code n) (size_tail n ++ rest) ≡ read_payload fin opcode n rest
unfolding read_sized size_code size_tail
read_sized-size_tail fin opcode n rest l = elim (Bool-cases (leb n 125)) [
  | inl short ↦ rw (short, short) refl
  | inr more ↦ elim (Bool-cases (leb n 0xffff)) [
    | inl medium ↦
        let small : n ≤ 0xffff = ground arith in
        let same : big_endian (low_bits (shr n 8) 8 ∷ low_bits n 8 ∷ []) ≡ n = omega arith in
        rw (more, medium, same) refl
    | inr long ↦
        let same : big_endian (
              low_bits (shr n 56) 8
              ∷ low_bits (shr n 48) 8
              ∷ low_bits (shr n 40) 8
              ∷ low_bits (shr n 32) 8
              ∷ low_bits (shr n 24) 8
              ∷ low_bits (shr n 16) 8
              ∷ low_bits (shr n 8) 8
              ∷ low_bits n 8
              ∷ [])
            ≡ n =
          omega arith in
        rw (more, long, same) refl
  ]
]

first_byte_parts :
    (fin : Bool) (opcode : Opcode)
    → IsOpcode opcode
    → ((first_byte fin opcode / 16 % 8 == 0) ≡ true)
      × (leb 0x80 (first_byte fin opcode) ≡ fin)
      × (first_byte fin opcode % 16 ≡ opcode_code opcode)
unfolding opcode_code
first_byte_parts true continuation o = (refl, refl, refl)
first_byte_parts false continuation o = (refl, refl, refl)
first_byte_parts fin (reserved n) o = absurd o
first_byte_parts true _ o = (refl, refl, refl)
first_byte_parts false _ o = (refl, refl, refl)

second_byte_parts :
    (n : ℕ) → (ltb (second_byte n true) 0x80 ≡ false) × (second_byte n true - 0x80 ≡ size_code n)
unfolding second_byte size_code
second_byte_parts n = ground arith

four_bytes :
    (key : Bytes)
    → length key ≡ 4
    → (a : ℕ) × (b : ℕ) × (c : ℕ) × (d : ℕ) × (key ≡ a ∷ b ∷ c ∷ d ∷ [])
four_bytes (a ∷ b ∷ c ∷ d ∷ []) four = (a, b, c, d, refl)
four_bytes [] four = absurd (omega arith)
four_bytes (a ∷ []) four = absurd (omega arith)
four_bytes (a ∷ b ∷ []) four = absurd (omega arith)
four_bytes (a ∷ b ∷ c ∷ []) four = absurd (omega arith)
four_bytes (a ∷ b ∷ c ∷ d ∷ e ∷ key) four = absurd (omega arith)

-- A frame masked with a key of four bytes, whatever follows it.
pub read_masked-frame :
    (fin : Bool) (opcode : Opcode) (payload key rest : Bytes)
    → IsOpcode opcode
    → length payload < 2 ^ 63
    → All IsByte payload
    → All IsByte key
    → length key ≡ 4
    → read_masked (
        first_byte fin opcode
        ∷ (size_bytes (length payload) true ++ (key ++ (apply_mask key 0 payload ++ rest))))
      ≡ some (record { fin = fin; opcode = opcode_code opcode; payload = payload; behind = rest })
unfolding read_masked
read_masked-frame fin opcode payload key rest o l hp hk four =
    let (a, b, c, d, whole) = four_bytes key four in
    let (plain, final, named) = first_byte_parts fin opcode o in
    let (masked, code) = second_byte_parts (length payload) in
    let bytes_of : All IsByte (a ∷ b ∷ c ∷ d ∷ []) = rw whole at hk in
    rw
      (
        size_bytes_lem (length payload) true,
        plain,
        masked,
        code,
        final,
        named,
        whole,
        read_sized-size_tail fin (opcode_code opcode) (length payload)
            (a ∷ b ∷ c ∷ d ∷ (apply_mask (a ∷ b ∷ c ∷ d ∷ []) 0 payload ++ rest)) l,
      )
      (read_payload-masked fin (opcode_code opcode) a b c d payload rest hp bytes_of)
