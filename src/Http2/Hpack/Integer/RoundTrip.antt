-- ===== src/Http2/Hpack/Integer/RoundTrip.antt =====
-- HpackEncodeInteger and HpackDecodeInteger of src/KernelHttpLib/http2/Hpack.cpp together.
use win_kernel_http.Common.{
  ℕ, zero, suc, [], ◌∷◌, ◌++◌, ◌+◌, ◌-◌, ◌*◌, ◌/◌, ◌%◌, ◌^◌, ◌≤◌, ◌<◌, ◌≡◌, ap, inl, inr, false,
  ◌&&◌, ◌||◌, ltb, leb, ◌==◌, if◌then◌else◌, some, length, drop, lt_wf, arith, length-append,
  length-drop, Bool-cases,
}
use win_kernel_http.Common.Buffer.{Bytes, IsUlong, bytes, low_bits, byte_at}
use win_kernel_http.Common.Status.{ok}
use mathlib.Core.List.{append_assoc}
use mathlib.Core.WellFounded.{Acc}
use native.Mathlib.Nat.{div-add-mod}
use native.Mathlib.Numerals.{towards_suc}
use win_kernel_http.Http2.Hpack.Integer.{
  max_prefix, high_bits, is_bad_prefix, encode_rest, encode_integer, decode_rest, decode_integer,
}

-- The continuation bytes of `v`, lowest seven bits first, for `v` below 128 ^ (k + 1).
groups : ℕ → ℕ → Bytes
groups zero v = v ∷ []
groups (suc k) v =
    let rest = groups k (v / 128) in if ltb v 128 then v ∷ [] else (v % 128 + 128) ∷ rest

length-groups : (k v : ℕ) → (1 ≤ length (groups k v)) × (length (groups k v) ≤ k + 1)
unfolding groups
length-groups zero v = omega arith
length-groups (suc k) v = ground (arith, length-groups k (v / 128))

encode_rest-groups :
    (k v : ℕ) (w : Acc ◌<◌ v) (out : Bytes) (capacity : ℕ)
    → v < 128 ^ suc k
    → length out + length (groups k v) ≤ capacity
    → encode_rest v w out capacity ≡ ok (out ++ groups k v)
unfolding encode_rest groups
encode_rest-groups zero v (Acc.intro _ smaller) out capacity h c = ground arith
encode_rest-groups (suc k) v (Acc.intro _ smaller) out capacity h c =
    let head : Bytes = (v % 128 + 128) ∷ [] in
    grind (
      arith,
      λ (w : Acc ◌<◌ (v / 128)) (d : length (out ++ head) + length (groups k (v / 128)) ≤ capacity).
          encode_rest-groups k (v / 128) w (out ++ head) capacity (omega arith) d,
      append_assoc out head (groups k (v / 128)),
      length-append out head,
      length-groups k (v / 128),
    )

seven_more : (m : ℕ) → 2 ^ (m + 7) ≡ 128 * 2 ^ m
seven_more m = simp towards_suc (omega arith)

-- What one round takes off, and what it leaves for the rounds behind it.
weigh : (v m : ℕ) → v * 2 ^ m ≡ v % 128 * 2 ^ m + v / 128 * 2 ^ (m + 7)
weigh v m = omega (
  arith,
  ap (λ (t : ℕ). t * 2 ^ m) (div-add-mod v 128),
  ap (λ (t : ℕ). v / 128 * t) (seven_more m),
)

-- The guard on the fifth byte never meets a value that fits 32 bits.
last_fits : (v m : ℕ) → m ≤ 28 → v * 2 ^ m < 2 ^ 32 → (leb 32 m || (leb 28 m && ltb 0x0f v)) ≡ false
last_fits v m h k = elim (Bool-cases (m == 28)) [
  | inl top ↦ let e : m ≡ 28 = ground arith in let k' = rw e at k in ground arith
  | inr low ↦ ground arith
]

last_round :
    (v m count result offset : ℕ) (rest : Bytes)
    → v < 128
    → count ≤ 4
    → m ≡ 7 * count
    → result + v * 2 ^ m < 2 ^ 32
    → decode_rest (v ∷ rest) result m count offset ≡ ok (result + v * 2 ^ m, offset + 1)
unfolding decode_rest
last_round v m count result offset rest h c e fits = ground (arith, last_fits v m)

inner_round :
    (g m count result offset : ℕ) (rest : Bytes)
    → g < 128
    → count ≤ 3
    → m ≡ 7 * count
    → result + g * 2 ^ m < 2 ^ 32
    → decode_rest ((g + 128) ∷ rest) result m count offset
      ≡ decode_rest rest (result + g * 2 ^ m) (m + 7) (count + 1) (offset + 1)
unfolding decode_rest
inner_round g m count result offset rest h c e fits = ground arith

decode_rest-groups :
    (k v m count result offset : ℕ) (rest : Bytes)
    → v < 128 ^ suc k
    → count + k ≤ 4
    → m ≡ 7 * count
    → result + v * 2 ^ m < 2 ^ 32
    → decode_rest (groups k v ++ rest) result m count offset
      ≡ ok (result + v * 2 ^ m, offset + length (groups k v))
unfolding groups
decode_rest-groups zero v m count result offset rest h c e fits =
    last_round v m count result offset rest h (omega arith) e fits
decode_rest-groups (suc k) v m count result offset rest h c e fits = ground (
  arith,
  last_round v m count result offset rest,
  weigh v m,
  inner_round (v % 128) m count result offset (groups k (v / 128) ++ rest),
  decode_rest-groups k (v / 128) (m + 7) (count + 1) (result + v % 128 * 2 ^ m) (offset + 1) rest
      (omega arith),
)

-- A prefix that is not refused has one bit to eight.
prefix_size : (bits : ℕ) → is_bad_prefix bits ≡ false → (1 < 2 ^ bits) × (2 ^ bits ≤ 256)
prefix_size zero b = absurd (ground arith)
prefix_size (suc zero) b = omega arith
prefix_size (suc (suc zero)) b = omega arith
prefix_size (suc (suc (suc zero))) b = omega arith
prefix_size (suc (suc (suc (suc zero)))) b = omega arith
prefix_size (suc (suc (suc (suc (suc zero))))) b = omega arith
prefix_size (suc (suc (suc (suc (suc (suc zero)))))) b = omega arith
prefix_size (suc (suc (suc (suc (suc (suc (suc zero))))))) b = omega arith
prefix_size (suc (suc (suc (suc (suc (suc (suc (suc zero)))))))) b = omega arith
prefix_size (suc (suc (suc (suc (suc (suc (suc (suc (suc n))))))))) b = absurd (ground arith)

-- An integer beside the upper bits of its first byte.
prefix_fields :
    (bits prefix x : ℕ)
    → is_bad_prefix bits ≡ false
    → x < 2 ^ bits
    → (low_bits (high_bits prefix bits + x) bits ≡ x)
      × (high_bits (high_bits prefix bits + x) bits ≡ high_bits prefix bits)
prefix_fields zero prefix x b h = absurd (ground arith)
prefix_fields (suc zero) prefix x b h = omega arith
prefix_fields (suc (suc zero)) prefix x b h = omega arith
prefix_fields (suc (suc (suc zero))) prefix x b h = omega arith
prefix_fields (suc (suc (suc (suc zero)))) prefix x b h = omega arith
prefix_fields (suc (suc (suc (suc (suc zero))))) prefix x b h = omega arith
prefix_fields (suc (suc (suc (suc (suc (suc zero)))))) prefix x b h = omega arith
prefix_fields (suc (suc (suc (suc (suc (suc (suc zero))))))) prefix x b h = omega arith
prefix_fields (suc (suc (suc (suc (suc (suc (suc (suc zero)))))))) prefix x b h = omega arith
prefix_fields (suc (suc (suc (suc (suc (suc (suc (suc (suc n))))))))) prefix x b h =
    absurd (ground arith)

-- Every `ULONG`, for a prefix of 1 to 8 bits and room for six bytes, is written in at most six
-- bytes, the first of which keeps the upper bits of `prefix`, and reads back to itself with exactly
-- those bytes consumed, whatever follows them.
pub integer_round_trip :
    (value prefix bits capacity : ℕ)
    → IsUlong value
    → is_bad_prefix bits ≡ false
    → 6 ≤ capacity
    → (out : Bytes) × (encode_integer value prefix bits (some capacity) ≡ ok out)
      × (length out ≤ 6)
      × (high_bits (byte_at out 0) bits ≡ high_bits prefix bits)
      × ((rest : Bytes) → decode_integer (bytes (out ++ rest)) bits ≡ ok (value, length out))
integer_round_trip value prefix bits capacity u b c =
    let (two, byte) = prefix_size bits b in
    elim (Bool-cases (ltb value (max_prefix bits))) [
      | inl short ↦
          let (low, high) = prefix_fields bits prefix value b (ground arith) in
          (
            (high_bits prefix bits + value) ∷ [],
            unfold encode_integer in ground arith,
            omega arith,
            high,
            λ rest. unfold decode_integer in ground arith,
          )
      | inr long ↦
          let (low, high) = prefix_fields bits prefix (max_prefix bits) b (omega arith) in
          let tail = groups 4 (value - max_prefix bits) in
          let size = length-groups 4 (value - max_prefix bits) in
          (
            (high_bits prefix bits + max_prefix bits) ∷ tail,
            unfold encode_integer in
                ground (
                  arith,
                  encode_rest-groups 4 (value - max_prefix bits)
                      (lt_wf.apply (value - max_prefix bits))
                      ((high_bits prefix bits + max_prefix bits) ∷ []) capacity,
                ),
            omega (arith, size),
            high,
            λ rest.
                unfold decode_integer in
                ground (
                  arith,
                  decode_rest-groups 4 (value - max_prefix bits) 0 0 (max_prefix bits) 1 rest,
                ),
          )
    ]

decode_rest-bounds :
    (src : Bytes) (result m count offset value consumed : ℕ)
    → IsUlong result
    → count ≤ 5
    → decode_rest src result m count offset ≡ ok (value, consumed)
    → IsUlong value
      × (result ≤ value)
      × (offset < consumed)
      × (consumed ≤ offset + length src)
      × (consumed + count ≤ offset + 5)
unfolding decode_rest
decode_rest-bounds [] result m count offset value consumed u c e = absurd (ground arith)
decode_rest-bounds (b ∷ rest) result m count offset value consumed u c e = ground (
  arith,
  decode_rest-bounds rest (result + low_bits (low_bits b 7 * 2 ^ m) 32) (m + 7) (count + 1)
      (offset + 1) value consumed,
)

-- An integer that is decoded fits a `ULONG`, and took at least one byte, at most six, and no more
-- than there were.
pub decode_integer_bounds :
    (src : Bytes) (bits value consumed : ℕ)
    → decode_integer (bytes src) bits ≡ ok (value, consumed)
    → IsUlong value × (1 ≤ consumed) × (consumed ≤ 6) × (consumed ≤ length src)
unfolding decode_integer
decode_integer_bounds src bits value consumed e = elim (Bool-cases (is_bad_prefix bits)) [
  | inl bad ↦ absurd (ground arith)
  | inr good ↦
      let (two, byte) = prefix_size bits good in
      let first : low_bits (byte_at src 0) bits < 2 ^ bits = omega arith in
      ground (
        arith,
        length-drop 1 src,
        decode_rest-bounds (drop 1 src) (low_bits (byte_at src 0) bits) 0 0 1 value consumed,
      )
]
