-- ===== src/WebSocket/Codec/Masking.antt =====
-- The masking loops of src/KernelHttpLib/websocket/WebSocketFrame.cpp.
use win_kernel_http.Common.{
  ℕ, zero, suc, [], ◌∷◌, ◌+◌, ◌%◌, ◌≡◌, refl, arith, true, ◌==◌, ==_iff, bit_xor, length, All, ap,
}
use win_kernel_http.Common.Bits.{every_below, every_below_at}
use win_kernel_http.Common.Buffer.{Bytes, IsByte, byte_at}
use win_kernel_http.WebSocket.Codec.{apply_mask, masking_key_length}

xor_table : every_below 256 (λ k. every_below 256 (λ b. bit_xor (bit_xor b k) k == b)) ≡ true
unfolding every_below
xor_table = refl

xor_twice : (b k : ℕ) → IsByte b → IsByte k → bit_xor (bit_xor b k) k ≡ b
xor_twice b k hb hk = (==_iff _ b).0 (
    every_below_at 256 (λ x. bit_xor (bit_xor x k) k == x) b
      (every_below_at 256 (λ y. every_below 256 (λ x. bit_xor (bit_xor x y) y == x)) k xor_table hk)
      hb)

pub byte_at-IsByte : (key : Bytes) (i : ℕ) → All IsByte key → IsByte (byte_at key i)
byte_at-IsByte [] i h = omega arith
byte_at-IsByte (k ∷ ks) zero h = h.0
byte_at-IsByte (k ∷ ks) (suc i) h = byte_at-IsByte ks i h.1

pub apply_mask_twice :
    (key data_ : Bytes) (index : ℕ)
    → All IsByte key
    → All IsByte data_
    → apply_mask key index (apply_mask key index data_) ≡ data_
unfolding apply_mask
apply_mask_twice key [] index hk hd = refl
apply_mask_twice key (b ∷ bs) index hk hd = ground (
  arith,
  xor_twice b (byte_at key (index % masking_key_length)) hd.0 (byte_at-IsByte key _ hk),
  apply_mask_twice key bs (index + 1) hk hd.1,
)

pub length-apply_mask :
    (key data_ : Bytes) (index : ℕ) → length (apply_mask key index data_) ≡ length data_
unfolding apply_mask
length-apply_mask key [] index = refl
length-apply_mask key (b ∷ bs) index = ap suc (length-apply_mask key bs (index + 1))
