-- ===== src/WebSocket/Handshake/Difference.antt =====
-- The comparison ConstantTimeEquals of src/KernelHttpLib/websocket/WebSocketFrame.cpp.
use win_kernel_http.Common.{
  ℕ, [], ◌∷◌, ◌%◌, ◌^◌, ◌≡◌, refl, Bool, true, not, ◌&&◌, leb, ◌==◌, if◌then◌else◌, length, bit_or,
  bit_xor, arith, All, ◌↔◌,
}
use win_kernel_http.Common.Bits.{every_below, every_below_at}
use win_kernel_http.Common.Buffer.{Bytes, IsByte, bytes}
use win_kernel_http.WebSocket.Handshake.{difference, constant_time_equals}

-- Neither operation hides a difference of two bytes.
keeps_or : ℕ → ℕ → Bool
keeps_or d x =
    leb (bit_or d x % 256) 255
    && (if d == 0 && x == 0 then bit_or d x % 256 == 0 else not (bit_or d x % 256 == 0))

keeps_xor : ℕ → ℕ → Bool
keeps_xor a b =
    leb (bit_xor a b) 255 && (if a == b then bit_xor a b == 0 else not (bit_xor a b == 0))

or_table : every_below 256 (λ d. every_below 256 (λ x. keeps_or d x)) ≡ true
unfolding every_below keeps_or
or_table = refl

xor_table : every_below 256 (λ a. every_below 256 (λ b. keeps_xor a b)) ≡ true
unfolding every_below keeps_xor
xor_table = refl

table_holds :
    (p : ℕ → ℕ → Bool)
    → every_below 256 (λ a. every_below 256 (p a)) ≡ true
    → (a b : ℕ) → IsByte a
    → IsByte b
    → p a b ≡ true
table_holds p table a b ha hb =
    every_below_at 256 (p a) b (every_below_at 256 (λ x. every_below 256 (p x)) a table ha) hb

-- One round of the loop.
difference_round :
    (a b diff : ℕ)
    → IsByte a
    → IsByte b
    → IsByte diff
    → IsByte (bit_or diff (bit_xor a b) % 2 ^ 8)
      × ((bit_or diff (bit_xor a b) % 2 ^ 8 ≡ 0) ↔ ((diff ≡ 0) × (a ≡ b)))
unfolding keeps_or keeps_xor
difference_round a b diff ha hb hd =
    let x = table_holds keeps_xor xor_table a b ha hb in
    let xor_byte : IsByte (bit_xor a b) = ground (arith, x) in
    let o = table_holds keeps_or or_table diff (bit_xor a b) hd xor_byte in
    (omega arith, ground (arith, x, o))

-- The loop ends on zero exactly where it started on zero and met no two bytes that differ.
pub difference_iff :
    (left right : Bytes) (diff : ℕ)
    → All IsByte left
    → All IsByte right
    → IsByte diff
    → length left ≡ length right
    → (difference left right (length right) diff ≡ 0) ↔ ((diff ≡ 0) × (left ≡ right))
unfolding difference
difference_iff [] [] diff hl hr hd e = ground arith
difference_iff [] (b ∷ right) diff hl hr hd e = absurd (omega arith)
difference_iff (a ∷ left) [] diff hl hr hd e = absurd (omega arith)
difference_iff (a ∷ left) (b ∷ right) diff hl hr hd e =
    let kept = difference_round a b diff hl.0 hr.0 hd in
    ground (
      arith,
      kept,
      difference_iff left right (bit_or diff (bit_xor a b) % 2 ^ 8) hl.1 hr.1 kept.0 (omega arith),
    )

-- On two texts of bytes of one length, `ConstantTimeEquals` is true exactly where they are the
-- same.
pub constant_time_equals_lem :
    (left right : Bytes)
    → All IsByte left
    → All IsByte right
    → length left ≡ length right
    → (constant_time_equals (bytes left) (bytes right) (length right) ≡ true) ↔ (left ≡ right)
unfolding constant_time_equals
constant_time_equals_lem left right hl hr e =
    ground (arith, difference_iff left right 0 hl hr (omega arith) e)
