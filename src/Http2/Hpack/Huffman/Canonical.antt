-- ===== src/Http2/Hpack/Huffman/Canonical.antt =====
-- What HpackHuffmanDecode of src/KernelHttpLib/http2/Hpack.cpp accepts.
use win_kernel_http.Common.{
  ℕ, List, [], ◌∷◌, ◌++◌, ◌+◌, ◌-◌, ◌*◌, ◌^◌, ◌≤◌, ◌<◌, ◌≡◌, refl, sym, ap, ◌∙◌, inl, inr,
  Bool-cases, All, All-append, length, arith, length-append, ◌==◌, some,
}
use win_kernel_http.Common.Buffer.{Bytes, IsByte, bytes}
use win_kernel_http.Common.Status.{ok, bind-eq-ok}
use native.Mathlib.Nat.{mod-eq_of_lt}
use win_kernel_http.Http2.Hpack.Huffman.Bits.{
  bits, unpack, ones, IsBit, bits-pad, bits-zero, bits-All, length-unpack, length-ones,
  unpack-injective,
}
use win_kernel_http.Http2.Hpack.Huffman.Runs.{message}
use win_kernel_http.Http2.Hpack.Huffman.Packing.{length-message, Packs, huffman_encode-Packs}
use win_kernel_http.Http2.Hpack.Huffman.Reading.{take_bytes-run_bits}
use win_kernel_http.Http2.Hpack.Huffman.RoundTrip.{huffman_decode_lem}
use win_kernel_http.Http2.Hpack.Huffman.{
  total_bits, huffman_encode, Decoder, take_bytes, finish_decoding, no_code, huffman_decode,
}
use win_kernel_http.Http2.Hpack.Huffman.Taking.{Reads, run_bits-Reads, no_code-Reads}

unpack-All : (src : Bytes) → All IsBit (unpack src)
unfolding unpack
unpack-All [] = tt
unpack-All (b ∷ src) = All-append IsBit (bits 8 b) (unpack src) (bits-All 8 b) (unpack-All src)

bits-ones : (n : ℕ) → bits n (2 ^ n - 1) ≡ ones n
bits-ones n =
    let e : 0 + n ≡ n = omega arith in
    let f : 0 * 2 ^ n + (2 ^ n - 1) ≡ 2 ^ n - 1 = omega arith in
    let pad = bits-pad n 0 0 in
    ap (λ (m : ℕ). bits m (2 ^ n - 1)) (sym e)
    ∙ ap (bits (0 + n)) (sym f)
    ∙ pad
    ∙ ap (λ (front : List ℕ). front ++ ones n) (bits-zero 0)

finish_decoding-ok :
    (s : Decoder) (out : Bytes)
    → s.current_code < 2 ^ s.current_bit_len
    → finish_decoding s ≡ ok out
    → (s.out ≡ out) × (s.current_bit_len < 8) × (s.current_code ≡ 2 ^ s.current_bit_len - 1)
unfolding finish_decoding
finish_decoding-ok s out fits e =
    let exact = mod-eq_of_lt fits in
    let e' = rw exact at e in
    elim (Bool-cases (s.current_bit_len == 0)) [
      | inl none_left ↦
          let z : s.current_bit_len ≡ 0 = ground arith in
          let one : 2 ^ s.current_bit_len ≡ 1 = rw z refl in ground arith
      | inr left ↦ ground arith
    ]

-- The decoder behind an input that it accepts.
decoded-Reads :
    (capacity : ℕ) (src out : Bytes)
    → huffman_decode (bytes src) (some capacity) ≡ ok out
    → (s : Decoder) × (finish_decoding s ≡ ok out) × Reads capacity s (unpack src)
decoded-Reads capacity src out e =
    let (s, taken, finished) =
      bind-eq-ok (take_bytes capacity src no_code) finish_decoding
        (sym (huffman_decode_lem src capacity) ∙ e) in
    (
      s,
      finished,
      run_bits-Reads capacity no_code [] (unpack src) s (no_code-Reads capacity) (unpack-All src)
          (rw (take_bytes-run_bits capacity src no_code) at taken),
    )

-- What the decoder accepts packs the codes of what it returns.
pub decoded-Packs :
    (capacity : ℕ) (src out : Bytes)
    → All IsByte src
    → huffman_decode (bytes src) (some capacity) ≡ ok out
    → Packs src (message out) × All IsByte out × (length out ≤ capacity)
decoded-Packs capacity src out h e =
    let (s, finished, reads) = decoded-Reads capacity src out e in
    let (same, few, all) = finish_decoding-ok s out reads.fits finished in
    let last : bits s.current_bit_len s.current_code ≡ ones s.current_bit_len =
      ap (bits s.current_bit_len) all ∙ bits-ones s.current_bit_len in
    (
      (h, s.current_bit_len, few, sym reads.same ∙ rw (same, last) refl),
      rw same at reads.are_bytes,
      rw same at reads.room,
    )

-- Nothing is written past the capacity, whatever the input.
pub huffman_decode-room :
    (capacity : ℕ) (src out : Bytes)
    → huffman_decode (bytes src) (some capacity) ≡ ok out
    → length out ≤ capacity
huffman_decode-room capacity src out e =
    let (s, finished, reads) = decoded-Reads capacity src out e in
    let (same, _, _) = finish_decoding-ok s out reads.fits finished in rw same at reads.room

-- Two fillings of the same bits up to whole bytes are the same.
pub Packs-unique : (xs ys : Bytes) (bs : List ℕ) → Packs xs bs → Packs ys bs → xs ≡ ys
Packs-unique xs ys bs (hx, i, ilow, ex) (hy, j, jlow, ey) =
    let sx : length (unpack xs) ≡ length (bs ++ ones i) = ap length ex in
    let sy : length (unpack ys) ≡ length (bs ++ ones j) = ap length ey in
    let same : i ≡ j = omega (
      arith,
      length-unpack xs,
      length-unpack ys,
      length-append bs (ones i),
      length-append bs (ones j),
      length-ones i,
      length-ones j,
    ) in
    unpack-injective xs ys hx hy (ex ∙ ap (λ (n : ℕ). bs ++ ones n) same ∙ sym ey)

total_bits-Packs : (src out : Bytes) → Packs src (message out) → total_bits out ≤ 8 * length src
total_bits-Packs src out (_, j, few, same) =
    let size : length (unpack src) ≡ length (message out ++ ones j) = ap length same in
    omega (arith, length-unpack src, length-append (message out) (ones j), length-message out)

-- Where HpackHuffmanDecode accepts a sequence of bytes, HpackHuffmanEncode of the string that it
-- returns, with as much room as the sequence has, writes that sequence again; the string consists
-- of bytes and fits the capacity.
pub huffman_decode_sound :
    (capacity : ℕ) (src out : Bytes)
    → All IsByte src
    → huffman_decode (bytes src) (some capacity) ≡ ok out
    → (huffman_encode (bytes out) (some (length src)) ≡ ok src)
      × All IsByte out
      × (length out ≤ capacity)
huffman_decode_sound capacity src out h e =
    let (packs, are_bytes, room) = decoded-Packs capacity src out h e in
    let (again, e', packs') =
      huffman_encode-Packs out (length src) (total_bits-Packs src out packs) in
    let same = Packs-unique again src (message out) packs' packs in
    (e' ∙ ap ok same, are_bytes, room)
