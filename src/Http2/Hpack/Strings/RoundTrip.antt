-- ===== src/Http2/Hpack/Strings/RoundTrip.antt =====
-- EncodeHeaderString of src/KernelHttpLib/http2/Hpack.cpp and the reading of a string in
-- HpackDecoder::Decode together.
use win_kernel_http.Common.{
  ℕ, [], ◌∷◌, ◌++◌, ◌+◌, ◌-◌, ◌*◌, ◌/◌, ◌%◌, ◌^◌, ◌≤◌, ◌<◌, ◌≡◌, refl, sym, ap, ◌∙◌, inl, inr, Bool,
  true, false, ◌&&◌, Bool-cases, All, length, take, drop, arith, length-append, take-append,
  drop-append, leb, ltb, ◌==◌, some,
}
use win_kernel_http.Common.Buffer.{Bytes, IsByte, IsUlong, bytes, byte_at, has_bit}
use win_kernel_http.Common.Status.{ok}
use mathlib.Core.List.{append_assoc}
use native.Mathlib.Nat.{mod-eq_of_lt, le-div_iff_mul-le}
use win_kernel_http.Http2.Hpack.Integer.{high_bits, is_bad_prefix, encode_integer}
use win_kernel_http.Http2.Hpack.Integer.RoundTrip.{integer_round_trip, decode_integer_bounds}
use win_kernel_http.Http2.Hpack.Huffman.{huffman_encoded_length, huffman_encode}
use win_kernel_http.Http2.Hpack.Huffman.RoundTrip.{
  huffman_decode-Packs, encoded_length_lem, length-Packs,
}
use win_kernel_http.Http2.Hpack.Huffman.Runs.{message}
use win_kernel_http.Http2.Hpack.Huffman.Packing.{Packs, huffman_encode-Packs}
use win_kernel_http.Http2.Hpack.Table.{max_size_t}
use win_kernel_http.Http2.Hpack.Names.{range_fits, multiply_size}
use win_kernel_http.Http2.Hpack.Strings.{
  encode_header_string, read_integer, string_bytes, read_string,
}

-- What an encoded integer does in front of anything: it is read back, and the prefix is kept.
pub record ReadsBack (value prefix bits : ℕ) (out : Bytes) : Type 0 where
  pub short : length out ≤ 6
  pub some_byte : 1 ≤ length out
  pub kept : high_bits (byte_at out 0) bits ≡ high_bits prefix bits
  pub reads : (rest : Bytes) → read_integer (out ++ rest) bits ≡ ok (value, rest)

pub encode_integer-ReadsBack :
    (value prefix bits room : ℕ)
    → IsUlong value
    → is_bad_prefix bits ≡ false
    → 6 ≤ room
    → (out : Bytes) × (encode_integer value prefix bits (some room) ≡ ok out)
      × ReadsBack value prefix bits out
unfolding read_integer
encode_integer-ReadsBack value prefix bits room u b c =
    let (out, e, short, kept, back) = integer_round_trip value prefix bits room u b c in
    (
      out,
      e,
      record {
        short = short;
        some_byte = (decode_integer_bounds (out ++ []) bits value (length out) (back [])).1;
        kept = kept;
        reads = λ rest. rw (back rest, drop-append out rest) refl;
      },
    )

-- The first byte of a sequence that has one.
pub byte_at-append : (xs ys : Bytes) → 1 ≤ length xs → byte_at (xs ++ ys) 0 ≡ byte_at xs 0
byte_at-append [] ys h = absurd (omega arith)
byte_at-append (x ∷ xs) ys h = refl

-- A string that is read back in front of anything, into a buffer with room for twice its length.
pub record IsString (text out : Bytes) : Type 0 where
  pub short : length out ≤ 6 + length text
  pub some_byte : 1 ≤ length out
  pub reads :
      (rest : Bytes) (nv_offset capacity : ℕ)
      → nv_offset + 2 * length text ≤ capacity
      → capacity < 2 ^ 62
      → read_string (out ++ rest) nv_offset capacity ≡ ok (text, rest)

multiply_size_two : (n : ℕ) → n < 2 ^ 62 → multiply_size n 2 ≡ some (n * 2)
unfolding multiply_size
multiply_size_two n h = elim (Bool-cases (n == 0)) [
  | inl z ↦ rw z refl
  | inr p ↦
      let pos : 0 < n = ground arith in
      let half = (le-div_iff_mul-le {k = n} {x = 2} {y = max_size_t} pos).1 (omega arith) in
      let fine : ltb (max_size_t / n) 2 ≡ false = ground arith in rw (p, fine) refl
]

-- A string whose length and bytes are written one behind the other.
framed-IsString :
    (text coded : Bytes) (n prefix : ℕ) (size : Bytes)
    → length coded ≡ n
    → ReadsBack n prefix 7 size
    → length coded ≤ length text
    → ((nv_offset capacity : ℕ)
        → nv_offset + 2 * length text ≤ capacity
        → capacity < 2 ^ 62
        → string_bytes (has_bit (byte_at size 0) 7) coded nv_offset capacity ≡ ok text)
    → IsString text (size ++ coded)
unfolding read_string
framed-IsString text coded n prefix size same back fits decoded = record {
  short = omega (arith, length-append size coded, back.short);
  some_byte = omega (arith, length-append size coded, back.some_byte);
  reads = λ rest nv_offset capacity room small.
      let first = byte_at-append size (coded ++ rest) back.some_byte in
      let filled : ltb 0 (length (size ++ (coded ++ rest))) ≡ true =
        ground (arith, length-append size (coded ++ rest), back.some_byte) in
      let whole : leb n (length (coded ++ rest)) ≡ true =
        ground (arith, length-append coded rest) in
      let front : take n (coded ++ rest) ≡ coded =
        ap (λ (m : ℕ). take m (coded ++ rest)) (sym same) ∙ take-append coded rest in
      let back_part : drop n (coded ++ rest) ≡ rest =
        ap (λ (m : ℕ). drop m (coded ++ rest)) (sym same) ∙ drop-append coded rest in
      rw
        (
          append_assoc size coded rest,
          filled,
          back.reads (coded ++ rest),
          whole,
          first,
          front,
          back_part,
          decoded nv_offset capacity room small,
        )
        refl;
}

plain_bytes :
    (text : Bytes) (byte nv_offset capacity : ℕ)
    → has_bit byte 7 ≡ false
    → nv_offset + 2 * length text ≤ capacity
    → string_bytes (has_bit byte 7) text nv_offset capacity ≡ ok text
unfolding string_bytes range_fits
plain_bytes text byte nv_offset capacity high room =
    let held : (leb nv_offset capacity && leb (length text) (capacity - nv_offset)) ≡ true =
      ground arith in
    rw (high, held) refl

huffman_bytes :
    (text coded : Bytes) (byte nv_offset capacity : ℕ)
    → has_bit byte 7 ≡ true
    → All IsByte text
    → Packs coded (message text)
    → length coded ≤ length text
    → nv_offset + 2 * length text ≤ capacity
    → capacity < 2 ^ 62
    → string_bytes (has_bit byte 7) coded nv_offset capacity ≡ ok text
unfolding string_bytes range_fits
huffman_bytes text coded byte nv_offset capacity high h packed fits room small =
    let hint : ℕ = length coded * 2 in
    let held : (leb nv_offset capacity && leb hint (capacity - nv_offset)) ≡ true = ground arith in
    rw (high, multiply_size_two (length coded) (omega arith), held)
      (huffman_decode-Packs (capacity - nv_offset) text coded h (omega arith) packed)

module _ (text : Bytes) (room : ℕ) (h : All IsByte text) (small : length text < 2 ^ 32)
    (fits : 6 + length text ≤ room) where
  huff_len : ℕ
  huff_len = huffman_encoded_length (bytes text)

  shorter : Bool
  shorter = ltb huff_len (length text) && ltb 0 (length text)

  huffman_written :
      (size coded : Bytes)
      → shorter ≡ true
      → huff_len % 2 ^ 32 ≡ huff_len
      → encode_integer huff_len 0x80 7 (some room) ≡ ok size
      → huffman_encode (bytes text) (some (room - length size)) ≡ ok coded
      → encode_header_string text room ≡ ok (size ++ coded)
  unfolding encode_header_string huff_len shorter
  huffman_written size coded less exact e e' = rw (less, exact, e, e') refl

  huffman-IsString :
      shorter ≡ true → (out : Bytes) × (encode_header_string text room ≡ ok out) × IsString text out
  unfolding huff_len shorter
  huffman-IsString less =
      let low : huff_len < length text = ground arith in
      let exact : huff_len % 2 ^ 32 ≡ huff_len = mod-eq_of_lt (omega arith) in
      let measured = encoded_length_lem text h (omega arith) in
      let (size, e, back) =
        encode_integer-ReadsBack huff_len 0x80 7 room (omega arith) refl (omega arith) in
      let (coded, e', packed) =
        huffman_encode-Packs text (room - length size) (omega (arith, back.short)) in
      let same : length coded ≡ huff_len = length-Packs text coded packed ∙ sym measured in
      let high : has_bit (byte_at size 0) 7 ≡ true = ground (arith, back.kept) in
      (
        size ++ coded,
        huffman_written size coded less exact e e',
        framed-IsString text coded huff_len 0x80 size same back (omega arith) λ nv_offset capacity.
            huffman_bytes text coded (byte_at size 0) nv_offset capacity high h packed
              (omega arith),
      )

  plain_written :
      (size : Bytes)
      → shorter ≡ false
      → encode_integer (length text) 0x00 7 (some room) ≡ ok size
      → leb (length text) (room - length size) ≡ true
      → encode_header_string text room ≡ ok (size ++ text)
  unfolding encode_header_string huff_len shorter
  plain_written size longer e held =
      let exact : length text % 2 ^ 32 ≡ length text = mod-eq_of_lt small in
      rw (longer, exact, e, held) refl

  plain-IsString :
      shorter ≡ false
      → (out : Bytes) × (encode_header_string text room ≡ ok out) × IsString text out
  plain-IsString longer =
      let (size, e, back) =
        encode_integer-ReadsBack (length text) 0x00 7 room small refl (omega arith) in
      let held : leb (length text) (room - length size) ≡ true = ground (arith, back.short) in
      let high : has_bit (byte_at size 0) 7 ≡ false = ground (arith, back.kept) in
      (
        size ++ text,
        plain_written size longer e held,
        framed-IsString text text (length text) 0x00 size refl back (omega arith)
            λ nv_offset capacity roomy _.
              plain_bytes text (byte_at size 0) nv_offset capacity high roomy,
      )

  -- With room for its bytes and six more, a string is written and read back.
  pub encode_header_string-IsString :
      (out : Bytes) × (encode_header_string text room ≡ ok out) × IsString text out
  encode_header_string-IsString = elim (Bool-cases shorter) [
    | inl less ↦ huffman-IsString less
    | inr longer ↦ plain-IsString longer
  ]
