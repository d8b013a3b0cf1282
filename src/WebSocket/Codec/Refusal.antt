-- ===== src/WebSocket/Codec/Refusal.antt =====
-- EncodeFrame of src/KernelHttpLib/websocket/WebSocketFrame.cpp on any input.
use win_kernel_http.Common.{
  ℕ, [], ◌∷◌, ◌++◌, ◌+◌, ◌≤◌, ◌≡◌, ◌≢◌, refl, ap, sym, ◌⊎◌, inr, Bool, true, none, some, length,
  take, take-length, length-append, arith,
}
use mathlib.Core.Path.{subst}
use win_kernel_http.Common.Buffer.{Bytes, Buffer, null, bytes, Outcome}
use win_kernel_http.WebSocket.Codec.{
  Opcode, encode_frame, write_frame, header_size, apply_mask, encode_client_frame,
}
use win_kernel_http.WebSocket.Codec.Fields.{
  size_bytes, first_byte, length-size_bytes, write_payload_length_lem,
}
use win_kernel_http.WebSocket.Codec.Masking.{length-apply_mask}

-- A refusal that stored nothing, or a whole frame within the destination.
abbrev pub IsWhole : Outcome → ℕ → Type 0
IsWhole out capacity =
    ((out.status ≢ none) × (out.stored ≡ []))
    ⊎ ((out.status ≡ none) × (out.count ≡ length out.stored) × (out.count ≤ capacity))

-- What `write_frame` writes where the frame fits.
abbrev frame_bytes : Opcode → Bool → Bytes → Bytes → Bytes
frame_bytes opcode fin payload key =
    first_byte fin opcode
    ∷ (size_bytes (length payload) true ++ (take 4 key ++ apply_mask key 0 payload))

write_frame_lem :
    (opcode : Opcode) (fin : Bool) (payload key : Bytes) (capacity : ℕ)
    → header_size (length payload) true + length payload ≤ capacity
    → write_frame opcode fin payload key true capacity ≡ record {
      status = none;
      stored = frame_bytes opcode fin payload key;
      count = header_size (length payload) true + length payload;
    }
unfolding write_frame
write_frame_lem opcode fin payload key capacity c = ground (
  arith,
  write_payload_length_lem (length payload) true capacity,
  length-size_bytes (length payload) true,
)

write_frame-IsWhole :
    (opcode : Opcode) (fin : Bool) (payload key : Bytes) (capacity : ℕ)
    → length key ≡ 4
    → header_size (length payload) true + length payload ≤ capacity
    → IsWhole (write_frame opcode fin payload key true capacity) capacity
write_frame-IsWhole opcode fin payload key capacity four c =
    let whole : take 4 key ≡ key = rw (← four) (take-length key) in
    let coded = apply_mask key 0 payload in
    subst (λ out. IsWhole out capacity) (sym (write_frame_lem opcode fin payload key capacity c))
      (inr (
        refl,
        omega (
          arith,
          ap length whole,
          length-size_bytes (length payload) true,
          length-apply_mask key payload 0,
          length-append (size_bytes (length payload) true) (take 4 key ++ coded),
          length-append (take 4 key) coded,
        ),
        c,
      ))

-- For any opcode, flag, payload and capacity and a key of four bytes, `EncodeClientFrame` either
-- fails and has stored nothing, or succeeds with a count that is the number of bytes stored, within
-- the destination.
pub encode_client_frame-IsWhole :
    (opcode : Opcode) (fin : Bool) (payload : Buffer) (key : Bytes) (capacity : ℕ)
    → length key ≡ 4
    → IsWhole (encode_client_frame opcode fin payload (some key) (some capacity)) capacity
unfolding encode_client_frame encode_frame
encode_client_frame-IsWhole opcode fin (null n) key capacity four =
    ground (arith, write_frame-IsWhole opcode fin [] key capacity four)
encode_client_frame-IsWhole opcode fin (bytes xs) key capacity four =
    ground (arith, write_frame-IsWhole opcode fin xs key capacity four)
