-- ===== src/Http2/Hpack/Huffman/Taking.antt =====
-- The bits that HpackHuffmanDecode of src/KernelHttpLib/http2/Hpack.cpp reads.
use win_kernel_http.Common.{
  ℕ, suc, List, [], ◌∷◌, ◌++◌, ◌+◌, ◌*◌, ◌%◌, ◌^◌, ◌≤◌, ◌<◌, ◌≡◌, refl, sym, ap, ◌∙◌, inl, inr,
  Bool-cases, Option-cases, All, All-append, length, arith, length-append, leb, ◌==◌, some, ltb,
}
use win_kernel_http.Common.Buffer.{Bytes, IsByte}
use win_kernel_http.Common.Status.{ok, bind-eq-ok}
use mathlib.Core.List.{append_assoc, append-nil}
use native.Mathlib.Nat.{mod-eq_of_lt, pow-le-pow_right, pow-succ'}
use win_kernel_http.Http2.Hpack.Huffman.Bits.{bits, IsBit, bits-push}
use win_kernel_http.Http2.Hpack.Huffman.Search.{find_huffman_symbol_sound}
use win_kernel_http.Http2.Hpack.Huffman.Runs.{message, run_bits}
use win_kernel_http.Http2.Hpack.Huffman.Reading.{reading}
use win_kernel_http.Http2.Hpack.Huffman.{
  huffman_symbol, find_huffman_symbol, Decoder, emit, take_bit, no_code,
}

pub message-append : (xs ys : Bytes) → message (xs ++ ys) ≡ message xs ++ message ys
unfolding message
message-append [] ys = refl
message-append (x ∷ xs) ys = rw (message-append xs ys) (
    sym (
      append_assoc (bits (huffman_symbol x).bit_length (huffman_symbol x).code) (message xs)
        (message ys)))

-- The bits that a decoder has read so far.
abbrev pub read_bits : Decoder → List ℕ
read_bits s = message s.out ++ bits s.current_bit_len s.current_code

pub record Reads (capacity : ℕ) (s : Decoder) (bs : List ℕ) : Type 0 where
  pub same : read_bits s ≡ bs
  pub short : s.current_bit_len ≤ 30
  pub fits : s.current_code < 2 ^ s.current_bit_len
  pub are_bytes : All IsByte s.out
  pub room : length s.out ≤ capacity

module _ (capacity : ℕ) (s : Decoder) (bs : List ℕ) (b : ℕ) (h : Reads capacity s bs) (hb : b < 2)
    (short : s.current_bit_len < 30) where
  abbrev pushed : ℕ
  pushed = s.current_code * 2 + b

  pushed_fits : pushed < 2 ^ suc s.current_bit_len
  pushed_fits = let e = pow-succ' 2 s.current_bit_len in omega (arith, h.fits)

  pushed_exact : pushed % 2 ^ 32 ≡ pushed
  pushed_exact =
      let low : 2 ^ suc s.current_bit_len ≤ 2 ^ 32 =
        pow-le-pow_right (omega arith) {j = 32} (omega arith) in
      mod-eq_of_lt (omega (arith, pushed_fits))

  read_pushed : message s.out ++ bits (suc s.current_bit_len) pushed ≡ bs ++ (b ∷ [])
  read_pushed =
      rw (bits-push s.current_bit_len s.current_code b hb, ← h.same)
        (sym (append_assoc (message s.out) (bits s.current_bit_len s.current_code) (b ∷ [])))

  counted : s.current_bit_len + 1 ≡ suc s.current_bit_len
  counted = omega arith

  kept-Reads :
      Reads capacity
        (record s { current_code = pushed; current_bit_len = s.current_bit_len + 1 })
        (bs ++ (b ∷ []))
  kept-Reads = record {
    same = rw counted read_pushed;
    short = omega arith;
    fits = rw counted pushed_fits;
    are_bytes = h.are_bytes;
    room = h.room;
  }

  emitted-Reads :
      (symbol : ℕ)
      → symbol < 256
      → length s.out < capacity
      → (huffman_symbol symbol).code ≡ pushed
      → (huffman_symbol symbol).bit_length ≡ suc s.current_bit_len
      → Reads capacity (reading (s.out ++ (symbol ∷ [])) 0 0) (bs ++ (b ∷ []))
  unfolding message bits
  emitted-Reads symbol small free code_eq length_eq = record {
    same =
        append-nil _
        ∙ message-append s.out (symbol ∷ [])
        ∙ ap (◌++◌ (message s.out)) (append-nil _ ∙ rw (code_eq, length_eq) refl)
        ∙ read_pushed;
    short = omega arith;
    fits = omega arith;
    are_bytes = All-append IsByte s.out (symbol ∷ []) (h.are_bytes) (small, tt);
    room = let size = length-append s.out (symbol ∷ []) in omega arith;
  }

  emit-Reads :
      (symbol : ℕ) (next : Decoder)
      → find_huffman_symbol pushed (s.current_bit_len + 1) ≡ some symbol
      → emit capacity (reading s.out pushed (s.current_bit_len + 1)) symbol ≡ ok next
      → Reads capacity next (bs ++ (b ∷ []))
  unfolding emit
  emit-Reads symbol next found e =
      let (small, code_eq, length_eq) =
        find_huffman_symbol_sound pushed (s.current_bit_len + 1) symbol (omega arith) found in
      elim (Bool-cases (symbol == 256)) [
        | inl last ↦ let e' = rw last at e in cc
        | inr byte ↦ elim (Bool-cases (leb capacity (length s.out))) [
          | inl full ↦ let e' = rw (byte, full) at e in cc
          | inr free ↦
              let low : symbol < 256 = ground arith in
              let same : ok (reading (s.out ++ (symbol ∷ [])) 0 0) ≡ ok next =
                rw (byte, free, mod-eq_of_lt low) at e in
              let final : reading (s.out ++ (symbol ∷ [])) 0 0 ≡ next = cc same in
              rw (← final)
                (emitted-Reads symbol low (ground arith) code_eq (rw (← counted) length_eq))
        ]
      ]

take_bit-Reads :
    (capacity : ℕ) (s : Decoder) (bs : List ℕ) (b : ℕ) (next : Decoder)
    → Reads capacity s bs
    → b < 2
    → take_bit capacity s b ≡ ok next
    → Reads capacity next (bs ++ (b ∷ []))
unfolding take_bit
take_bit-Reads capacity s bs b next h hb e = elim (Bool-cases (ltb 30 (s.current_bit_len + 1))) [
  | inl long ↦ let e' = rw long at e in cc
  | inr fine ↦
      let short : s.current_bit_len < 30 = ground arith in
      let code : ℕ = s.current_code * 2 + b in
      let exact = pushed_exact capacity s bs b h hb short in
      let e' = rw (fine, exact) at e in
      elim (Option-cases (find_huffman_symbol code (s.current_bit_len + 1))) [
        | inl missing ↦
            let same : ok (reading s.out code (s.current_bit_len + 1)) ≡ ok next =
              rw exact at rw missing at e' in
            let final : reading s.out code (s.current_bit_len + 1) ≡ next = cc same in
            rw (← final) (kept-Reads capacity s bs b h hb short)
        | inr (symbol, found) ↦
            emit-Reads capacity s bs b h hb short symbol next found (rw exact at rw found at e')
      ]
]

pub run_bits-Reads :
    (capacity : ℕ) (s : Decoder) (bs cs : List ℕ) (next : Decoder)
    → Reads capacity s bs
    → All IsBit cs
    → run_bits (take_bit capacity) s cs ≡ ok next
    → Reads capacity next (bs ++ cs)
unfolding run_bits
run_bits-Reads capacity s bs [] next h hc e =
    let same : s ≡ next = cc e in rw (append-nil bs, ← same) h
run_bits-Reads capacity s bs (c ∷ cs) next h hc e =
    let (middle, first, rest) = bind-eq-ok (take_bit capacity s c) _ e in
    rw (← append_assoc bs (c ∷ []) cs) (
      run_bits-Reads capacity middle (bs ++ (c ∷ [])) cs next
        (take_bit-Reads capacity s bs c middle h (hc.0) first) (hc.1) rest)

pub no_code-Reads : (capacity : ℕ) → Reads capacity no_code []
unfolding message bits
no_code-Reads capacity = record {
  same = refl;
  short = omega arith;
  fits = omega arith;
  are_bytes = tt;
  room = omega arith;
}
