-- ===== src/Http2/Hpack/Huffman/Packing.antt =====
-- HpackHuffmanEncode of src/KernelHttpLib/http2/Hpack.cpp as a packing of bits into bytes.
use win_kernel_http.Common.{
  ℕ, suc, List, [], ◌∷◌, ◌++◌, ◌+◌, ◌-◌, ◌*◌, ◌%◌, ◌^◌, ◌≤◌, ◌<◌, ◌≡◌, refl, sym, ap, ◌∙◌, inl, inr,
  Bool-cases, All, All-append, length, arith, length-append, ◌==◌, ==_iff, true, false, some,
}
use win_kernel_http.Common.Buffer.{Bytes, IsByte, bytes}
use win_kernel_http.Common.Bits.{every_below, every_below_at}
use win_kernel_http.Common.Status.{ok, ◌>>=◌}
use mathlib.Core.List.{append_assoc, append-nil}
use native.Mathlib.Nat.{
  pow-succ', mod-eq_of_lt, pow-le-pow_right, one-le-pow, suc-mul, mul-le-mul_right,
}
use win_kernel_http.Http2.Hpack.Huffman.Bits.{
  bits, unpack, ones, IsBit, length-bits, length-unpack, unpack-append, bits-All, bits-push,
  bits-pad, bits-zero, ones-zero,
}
use win_kernel_http.Http2.Hpack.Huffman.{
  huffman_symbol, Encoder, put_bit, put_symbols, finish_encoding, no_bits, total_bits,
  huffman_encode,
}
use win_kernel_http.Http2.Hpack.Huffman.Runs.{message, run_bits, put_symbols-run_bits}

-- The bits that an encoder has taken so far.
abbrev taken : Encoder → List ℕ
taken s = unpack s.out ++ bits s.bit_count s.current_byte

record Stands (s : Encoder) (bs : List ℕ) : Type 0 where
  pub same : taken s ≡ bs
  pub few : s.bit_count < 8
  pub fits : s.current_byte < 2 ^ s.bit_count
  pub are_bytes : All IsByte s.out

length-taken :
    (s : Encoder) (bs : List ℕ) → Stands s bs → 8 * length s.out + s.bit_count ≡ length bs
length-taken s bs h =
    rw
      (
        ← h.same,
        length-append (unpack s.out) (bits s.bit_count s.current_byte),
        length-bits s.bit_count s.current_byte,
        length-unpack s.out,
      )
      refl

module _ (s : Encoder) (bs : List ℕ) (b : ℕ) (h : Stands s bs) (hb : b < 2) where
  abbrev pushed : ℕ
  pushed = s.current_byte * 2 + b

  pushed_fits : pushed < 2 ^ suc s.bit_count
  pushed_fits = let e = pow-succ' 2 s.bit_count in omega (arith, h.fits)

  pushed_exact : pushed % 256 ≡ pushed
  pushed_exact =
      let low : 2 ^ suc s.bit_count ≤ 2 ^ 8 =
        pow-le-pow_right (omega arith) {j = 8} (omega (arith, h.few)) in
      mod-eq_of_lt (omega (arith, pushed_fits))

  taken_pushed : unpack s.out ++ bits (suc s.bit_count) pushed ≡ bs ++ (b ∷ [])
  taken_pushed =
      rw (bits-push s.bit_count s.current_byte b hb, ← h.same)
        (sym (append_assoc (unpack s.out) (bits s.bit_count s.current_byte) (b ∷ [])))

  counted : s.bit_count + 1 ≡ suc s.bit_count
  counted = omega arith

  more-Stands :
      s.bit_count < 7
      → Stands (record s { current_byte = pushed; bit_count = s.bit_count + 1 }) (bs ++ (b ∷ []))
  more-Stands less = record {
    same = rw counted taken_pushed;
    few = omega arith;
    fits = rw counted pushed_fits;
    are_bytes = h.are_bytes;
  }

  taken_full : s.bit_count ≡ 7 → unpack s.out ++ bits 8 pushed ≡ bs ++ (b ∷ [])
  taken_full full = let eight : suc s.bit_count ≡ 8 = omega arith in rw eight at taken_pushed

  full-Stands :
      s.bit_count ≡ 7
      → Stands
          (record { out = s.out ++ (pushed ∷ []); current_byte = 0; bit_count = 0 })
          (bs ++ (b ∷ []))
  unfolding unpack bits
  full-Stands full =
      let eight : suc s.bit_count ≡ 8 = omega arith in
      let fits : pushed < 2 ^ 8 = rw eight at pushed_fits in
      record {
        same = append-nil _ ∙ unpack-append s.out (pushed ∷ []) ∙ taken_full full;
        few = omega arith;
        fits = omega arith;
        are_bytes = All-append IsByte s.out _ (h.are_bytes) (fits, tt);
      }

  put_bit-Stands :
      (capacity : ℕ)
      → length bs + 1 ≤ 8 * capacity
      → (next : Encoder) × (put_bit capacity s b ≡ ok next) × Stands next (bs ++ (b ∷ []))
  unfolding put_bit
  put_bit-Stands capacity room =
      let size = length-taken s bs h in
      elim (Bool-cases (s.bit_count + 1 == 8)) [
        | inl full ↦ (_, rw (full, pushed_exact) (ground arith), full-Stands (ground arith))
        | inr more ↦ (_, rw (more, pushed_exact) refl, more-Stands (ground (arith, h.few)))
      ]

run_bits-Stands :
    (capacity : ℕ) (s : Encoder) (bs cs : List ℕ)
    → Stands s bs
    → All IsBit cs
    → length bs + length cs ≤ 8 * capacity
    → (next : Encoder) × (run_bits (put_bit capacity) s cs ≡ ok next) × Stands next (bs ++ cs)
unfolding run_bits
run_bits-Stands capacity s bs [] h hc room = (s, refl, rw (append-nil bs) h)
run_bits-Stands capacity s bs (c ∷ cs) h hc room =
    let (next, e, stands) = put_bit-Stands s bs c h (hc.0) capacity (omega arith) in
    let size = length-append bs (c ∷ []) in
    let (final, e', stands') =
      run_bits-Stands capacity next (bs ++ (c ∷ [])) cs stands (hc.1) (omega arith) in
    (final, rw e e', rw (← append_assoc bs (c ∷ []) cs) stands')

-- A byte sequence with its last byte filled up by ones.
abbrev pub Packs : Bytes → List ℕ → Type 0
Packs out bs = All IsByte out × (j : ℕ) × (j < 8) × (unpack out ≡ bs ++ ones j)

byte_powers : every_below 8 (λ n. 2 ^ n * 2 ^ (8 - n) == 256) ≡ true
unfolding every_below
byte_powers = refl

module _ (s : Encoder) (bs : List ℕ) (h : Stands s bs) where
  abbrev padding : ℕ
  padding = 8 - s.bit_count

  abbrev last_byte : ℕ
  last_byte = s.current_byte * 2 ^ padding + (2 ^ padding - 1)

  last_byte_fits : last_byte < 256
  last_byte_fits =
      let e = (==_iff _ _).0 (every_below_at 8 _ s.bit_count byte_powers (h.few)) in
      let low = one-le-pow padding 2 (omega arith) in
      let k = mul-le-mul_right (2 ^ padding) (h.fits) in
      omega (arith, suc-mul s.current_byte (2 ^ padding))

  taken_padded : unpack s.out ++ bits 8 last_byte ≡ bs ++ ones padding
  taken_padded =
      let eight : s.bit_count + padding ≡ 8 = omega (arith, h.few) in
      let pad =
        ap (λ (n : ℕ). bits n last_byte) (sym eight)
        ∙ bits-pad padding s.bit_count s.current_byte in
      rw (← h.same) (
        ap (◌++◌ (unpack s.out)) pad
        ∙ sym (append_assoc (unpack s.out) (bits s.bit_count s.current_byte) (ones padding)))

  taken_whole : s.bit_count ≡ 0 → unpack s.out ≡ bs ++ ones 0
  taken_whole z =
      let same = rw (z, bits-zero s.current_byte, append-nil (unpack s.out)) at h.same in
      rw (ones-zero, append-nil bs) same

  finish_encoding-Packs :
      (capacity : ℕ)
      → length bs ≤ 8 * capacity
      → (out : Bytes) × (finish_encoding capacity s ≡ ok out) × Packs out bs
  unfolding finish_encoding unpack bits
  finish_encoding-Packs capacity room =
      let size = length-taken s bs h in
      elim (Bool-cases (s.bit_count == 0)) [
        | inl full ↦
            (s.out, rw full refl, (h.are_bytes, 0, omega arith, taken_whole (ground arith)))
        | inr more ↦ (
          s.out ++ (last_byte ∷ []),
          rw (more, mod-eq_of_lt last_byte_fits) (ground arith),
          (
            All-append IsByte s.out _ (h.are_bytes) (last_byte_fits, tt),
            padding,
            ground arith,
            unpack-append s.out (last_byte ∷ []) ∙ taken_padded,
          ),
        )
      ]

pub length-message : (src : Bytes) → length (message src) ≡ total_bits src
unfolding message total_bits
length-message [] = refl
length-message (b ∷ src) =
    let n = (huffman_symbol b).bit_length in
    let code = (huffman_symbol b).code in
    omega (arith, length-append (bits n code) (message src), length-bits n code, length-message src)

message-All : (src : Bytes) → All IsBit (message src)
unfolding message
message-All [] = tt
message-All (b ∷ src) =
    let n = (huffman_symbol b).bit_length in
    let code = (huffman_symbol b).code in
    All-append IsBit (bits n code) (message src) (bits-All n code) (message-All src)

no_bits-Stands : Stands no_bits []
unfolding unpack bits
no_bits-Stands = record { same = refl; few = omega arith; fits = omega arith; are_bytes = tt }

packs :
    (src : Bytes) (capacity : ℕ)
    → total_bits src ≤ 8 * capacity
    → (out : Bytes) × ((put_symbols capacity src no_bits >>= finish_encoding capacity) ≡ ok out)
      × Packs out (message src)
packs src capacity room =
    let size = length-message src in
    let (s, e, stands) =
      run_bits-Stands capacity no_bits [] (message src) no_bits-Stands (message-All src)
        (omega arith) in
    let (out, e', packed) = finish_encoding-Packs s (message src) stands capacity (omega arith) in
    (out, rw (put_symbols-run_bits capacity src no_bits, e) e', packed)

-- With room for the bits of the codes, the encoder packs them.
pub huffman_encode-Packs :
    (src : Bytes) (capacity : ℕ)
    → total_bits src ≤ 8 * capacity
    → (out : Bytes) × (huffman_encode (bytes src) (some capacity) ≡ ok out)
      × Packs out (message src)
unfolding huffman_encode message unpack ones
huffman_encode-Packs [] capacity room = ([], refl, (tt, 0, omega arith, refl))
huffman_encode-Packs (b ∷ src) capacity room =
    let (out, e, packed) = packs (b ∷ src) capacity room in
    let filled : (length (b ∷ src) == 0) ≡ false = ground arith in (out, rw filled e, packed)
