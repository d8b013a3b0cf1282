-- ===== src/Http2/Hpack/Huffman/Reading.antt =====
-- HpackHuffmanDecode of src/KernelHttpLib/http2/Hpack.cpp as a run over the bits of its input.
use win_kernel_http.Common.{
  ℕ, zero, suc, [], ◌∷◌, ◌++◌, ◌+◌, ◌-◌, ◌*◌, ◌/◌, ◌%◌, ◌^◌, ◌≤◌, ◌<◌, ◌≡◌, refl, All, length,
  arith, length-append, leb, ◌==◌, Bool, Option, some, none, ltb, true, false,
}
use win_kernel_http.Common.Bits.{every_below, every_below_at}
use win_kernel_http.Common.Buffer.{Bytes, IsByte, shr}
use win_kernel_http.Common.Status.{ok}
use mathlib.Core.List.{append_assoc, append-nil}
use native.Mathlib.Nat.{mod-eq_of_lt, pow-le-pow_right, one-le-pow, pow-succ', div-le_self}
use win_kernel_http.Http2.Hpack.Huffman.Bits.{bits, unpack, ones, halve, whole, above}
use win_kernel_http.Http2.Hpack.Huffman.Search.{symbol_bounds, find-code, find-part}
use win_kernel_http.Http2.Hpack.Huffman.Runs.{message, run_bits, run_bits-append, bind-ext}
use win_kernel_http.Http2.Hpack.Huffman.{
  huffman_symbol, find_among, candidates, find_huffman_symbol, Decoder, emit, take_bit, take_byte,
  take_bytes,
}

take_byte-run_bits :
    (capacity left byte : ℕ) (s : Decoder)
    → take_byte capacity left byte s ≡ run_bits (take_bit capacity) s (bits left byte)
unfolding run_bits bits take_byte
take_byte-run_bits capacity zero byte s = refl
take_byte-run_bits capacity (suc left) byte s =
    bind-ext (take_bit capacity s (shr byte left % 2)) (take_byte-run_bits capacity left byte)

pub take_bytes-run_bits :
    (capacity : ℕ) (src : Bytes) (s : Decoder)
    → take_bytes capacity src s ≡ run_bits (take_bit capacity) s (unpack src)
unfolding take_bytes unpack run_bits
take_bytes-run_bits capacity [] s = refl
take_bytes-run_bits capacity (b ∷ src) s =
    rw
      (
        run_bits-append (take_bit capacity) s (bits 8 b) (unpack src),
        ← take_byte-run_bits capacity 8 b s,
      )
      (bind-ext (take_byte capacity 8 b s) (take_bytes-run_bits capacity src))

abbrev is_none : Option ℕ → Bool
is_none none = true
is_none (some s) = false

is_none-eq : (o : Option ℕ) → is_none o ≡ true → o ≡ none
is_none-eq none h = refl
is_none-eq (some s) h = cc

abbrev pub reading : Bytes → ℕ → ℕ → Decoder
reading out code n = record { out = out; current_code = code; current_bit_len = n }

module _ (capacity : ℕ) (out : Bytes) where
  module _ (code n bit next m : ℕ) (pushed : code * 2 + bit ≡ next) (counted : n + 1 ≡ m)
      (short : m ≤ 30) (fits : next < 2 ^ 30) where
    -- A bit that completes no code is kept.
    take_bit-none :
        find_huffman_symbol next m ≡ none
        → take_bit capacity (reading out code n) bit ≡ ok (reading out next m)
    unfolding take_bit
    take_bit-none e =
        let exact : next % 2 ^ 32 ≡ next = mod-eq_of_lt (omega arith) in
        let small : ltb 30 m ≡ false = ground arith in
        rw (counted, pushed, exact, small, e) (rw (counted, pushed, exact) refl)

    -- The last bit of the code of a byte appends it.
    take_bit-some :
        (s : ℕ)
        → s < 256
        → length out < capacity
        → find_huffman_symbol next m ≡ some s
        → take_bit capacity (reading out code n) bit ≡ ok (reading (out ++ (s ∷ [])) 0 0)
    unfolding take_bit emit
    take_bit-some s small room e =
        let exact : next % 2 ^ 32 ≡ next = mod-eq_of_lt (omega arith) in
        let byte : s % 256 ≡ s = mod-eq_of_lt small in
        let few : ltb 30 m ≡ false = ground arith in
        let other : (s == 256) ≡ false = ground arith in
        let free : leb capacity (length out) ≡ false = ground arith in
        rw (counted, pushed, exact, few, e, other, free, byte) refl

  module _ (s : ℕ) (small : s < 256) (room : length out < capacity) where
    open huffman_symbol s use {code, bit_length}

    part_fits : (n : ℕ) → code / 2 ^ n < 2 ^ 30
    part_fits n =
        let (_, short, fits) = symbol_bounds s (omega arith) in
        let low : 2 ^ bit_length ≤ 2 ^ 30 = pow-le-pow_right (omega arith) short in
        omega (arith, div-le_self code (2 ^ n))

    -- Behind the higher bits of a code, the lower ones complete it.
    read_rest :
        (n : ℕ)
        → n < bit_length
        → run_bits
            (take_bit capacity)
            (reading out (code / 2 ^ suc n) (bit_length - suc n))
            (bits (suc n) code)
          ≡ ok (reading (out ++ (s ∷ [])) 0 0)
    unfolding run_bits bits
    read_rest zero lt =
        let (_, short, fits) = symbol_bounds s (omega arith) in
        rw
          (take_bit-some (code / 2 ^ 1) (bit_length - 1) (code / 2 ^ 0 % 2) (code / 2 ^ 0)
            bit_length (halve code 0) (omega arith) short (part_fits 0) s small room
            (rw (whole code) (find-code s (omega arith))))
          refl
    read_rest (suc n) lt =
        let (_, short, fits) = symbol_bounds s (omega arith) in
        let left : bit_length - (bit_length - suc n) ≡ suc n = omega arith in
        let part = find-part s (omega arith) (bit_length - suc n) (omega arith) in
        rw
          (take_bit-none (code / 2 ^ suc (suc n)) (bit_length - suc (suc n)) (code / 2 ^ suc n % 2)
            (code / 2 ^ suc n) (bit_length - suc n) (halve code (suc n)) (omega arith) (omega arith)
            (part_fits (suc n)) (rw left at part))
          (read_rest n (omega arith))

    read_all :
        (n : ℕ)
        → bit_length ≡ suc n
        → run_bits (take_bit capacity) (reading out 0 0) (bits bit_length code)
          ≡ ok (reading (out ++ (s ∷ [])) 0 0)
    read_all n e =
        let (_, _, fits) = symbol_bounds s (omega arith) in
        let no_bits : bit_length - suc n ≡ 0 = omega arith in
        let no_part : code / 2 ^ suc n ≡ 0 = above code (suc n) (rw e at fits) in
        let start : reading out (code / 2 ^ suc n) (bit_length - suc n) ≡ reading out 0 0 =
          λ i. record { out = out; current_code = no_part i; current_bit_len = no_bits i } in
        rw (e, ← start) (read_rest n (omega arith))

    pub read_symbol :
        run_bits (take_bit capacity) (reading out 0 0) (bits bit_length code)
        ≡ ok (reading (out ++ (s ∷ [])) 0 0)
    read_symbol =
        let (long, _, fits) = symbol_bounds s (omega arith) in
        read_all (bit_length - 1) (omega arith)

-- The codes of a string of bytes are read back, one symbol at a time.
pub read_message :
    (capacity : ℕ) (src out : Bytes)
    → All IsByte src
    → length out + length src ≤ capacity
    → run_bits (take_bit capacity) (reading out 0 0) (message src) ≡ ok (reading (out ++ src) 0 0)
unfolding message run_bits
read_message capacity [] out h room = rw (append-nil out) refl
read_message capacity (b ∷ src) out h room =
    let e = read_symbol capacity out b (h.0) (omega arith) in
    let size = length-append out (b ∷ []) in
    let rest = read_message capacity src (out ++ (b ∷ [])) (h.1) (omega arith) in
    rw
      (
        run_bits-append (take_bit capacity) (reading out 0 0)
            (bits (huffman_symbol b).bit_length (huffman_symbol b).code) (message src),
        e,
        rest,
        append_assoc out (b ∷ []) src,
      )
      refl

-- No sequence of up to seven ones is a code.
no_code_of_ones : every_below 8 (λ n. is_none (find_huffman_symbol (2 ^ n - 1) n)) ≡ true
unfolding every_below find_huffman_symbol find_among candidates huffman_symbol
no_code_of_ones = refl

-- Padding is kept as it is read.
pub read_ones :
    (capacity n j m : ℕ) (out : Bytes)
    → n + j ≡ m
    → m < 8
    → run_bits (take_bit capacity) (reading out (2 ^ n - 1) n) (ones j)
      ≡ ok (reading out (2 ^ m - 1) m)
unfolding ones run_bits
read_ones capacity n zero m out sum h = let e : n ≡ m = omega arith in rw e refl
read_ones capacity n (suc j) m out sum h =
    let e = pow-succ' 2 n in
    let low = one-le-pow n 2 (omega arith) in
    let small : 2 ^ suc n ≤ 2 ^ 8 = pow-le-pow_right (omega arith) {j = 8} (omega arith) in
    let kept =
      take_bit-none capacity out (2 ^ n - 1) n 1 (2 ^ suc n - 1) (suc n) (omega arith) (omega arith)
        (omega arith) (omega arith)
        (is_none-eq _ (every_below_at 8 _ (suc n) no_code_of_ones (omega arith))) in
    rw kept (read_ones capacity (suc n) j m out (omega arith) h)
