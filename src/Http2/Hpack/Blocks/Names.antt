-- ===== src/Http2/Hpack/Blocks/Names.antt =====
-- The name in front of a literal header field, between HpackEncoder::Encode and
-- HpackDecoder::Decode of src/KernelHttpLib/http2/Hpack.cpp.
use win_kernel_http.Common.{
  ℕ, ◌∷◌, ◌++◌, ◌+◌, ◌-◌, ◌*◌, ◌%◌, ◌^◌, ◌≤◌, ◌<◌, ◌≡◌, refl, ap, ◌∙◌, Bool, true, false, All,
  length, arith, ltb, ◌==◌, if◌then◌else◌, some,
}
use win_kernel_http.Common.Buffer.{Bytes, IsByte, byte_at}
use win_kernel_http.Common.Status.{Result, ok, ◌>>=◌}
use native.Mathlib.Nat.{mod-eq_of_lt}
use win_kernel_http.Http2.Hpack.Integer.{high_bits, is_bad_prefix, encode_integer, decode_integer}
use win_kernel_http.Http2.Hpack.Table.{Table, Field}
use win_kernel_http.Http2.Hpack.Strings.{encode_header_string, read_integer, read_string}
use win_kernel_http.Http2.Hpack.Strings.RoundTrip.{
  encode_integer-ReadsBack, encode_header_string-IsString,
}
use win_kernel_http.Http2.Hpack.Decoder.{table_entry, or_invalid, indexed_field, name_at, read_name}
use win_kernel_http.Http2.Hpack.Encoder.{encode_name}
use win_kernel_http.Http2.Hpack.Blocks.Fold.{fold_name}
use win_kernel_http.Http2.Hpack.Blocks.Matching.{NamesField}
use win_kernel_http.Http2.Hpack.Blocks.Agreement.{Agree, table_entry-same, entry_count_small}

abbrev pub prefix_of : Bool → ℕ
prefix_of never_index = if never_index then 0x10 else 0x40

abbrev pub prefix_bits_of : Bool → ℕ
prefix_bits_of never_index = if never_index then 4 else 6

-- A header that Encode takes, of a size that 32-bit lengths hold by far.
pub record IsHeader (header : Field) : Type 0 where
  pub named : 0 < length header.name
  pub name_bytes : All IsByte header.name
  pub value_bytes : All IsByte header.value
  pub small : length header.name + length header.value < 2 ^ 26

-- What the first part of a literal does in front of anything.
pub record IsName (d : Table) (never_index : Bool) (name out : Bytes) : Type 0 where
  pub short : length out ≤ 7 + length name
  pub some_byte : 1 ≤ length out
  pub kept : high_bits (byte_at out 0) (prefix_bits_of never_index) ≡ prefix_of never_index
  pub read : Bytes
  pub written : Bool
  pub same : fold_name read ≡ fold_name name
  pub reads :
      (rest : Bytes) (nv_offset capacity : ℕ)
      → nv_offset + 2 * length name ≤ capacity
      → capacity < 2 ^ 62
      → read_name d (prefix_bits_of never_index) (out ++ rest) nv_offset capacity
        ≡ ok (read, written, rest)

prefix_kept :
    (never_index : Bool)
    → high_bits (prefix_of never_index) (prefix_bits_of never_index) ≡ prefix_of never_index
prefix_kept true = refl
prefix_kept false = refl

prefix_fine : (never_index : Bool) → is_bad_prefix (prefix_bits_of never_index) ≡ false
prefix_fine true = refl
prefix_fine false = refl

pub indexed_field_found :
    (d : Table) (index : ℕ) (g : Field)
    → table_entry d index ≡ some g
    → indexed_field d index ≡ ok g
unfolding indexed_field
indexed_field_found d index g e = ap or_invalid e

name_known :
    (d : Table) (index : ℕ) (g : Field) (rest : Bytes) (nv_offset capacity : ℕ)
    → 0 < index
    → table_entry d index ≡ some g
    → name_at d index rest nv_offset capacity ≡ ok (g.name, false, rest)
unfolding name_at
name_known d index g rest nv_offset capacity p e =
    let known : ltb 0 index ≡ true = ground arith in
    rw (known, indexed_field_found d index g e) refl

encode_known :
    (index room : ℕ) (never_index : Bool) (header : Field)
    → 0 < index
    → index < 2 ^ 32
    → encode_name index never_index header room
      ≡ encode_integer index (prefix_of never_index) (prefix_bits_of never_index) (some room)
unfolding encode_name
encode_known index room never_index header p small =
    let known : ltb 0 index ≡ true = ground arith in
    let exact : index % 2 ^ 32 ≡ index = mod-eq_of_lt small in rw (known, exact) refl

pub known-IsName :
    (e d : Table) (never_index : Bool) (header : Field) (index room : ℕ)
    → Agree e d
    → NamesField e header index
    → 6 ≤ room
    → (out : Bytes) × (encode_name index never_index header room ≡ ok out)
      × IsName d never_index header.name out
unfolding read_name
known-IsName e d never_index header index room h n fits =
    let small : index < 2 ^ 32 = omega (arith, entry_count_small e d h, n.within) in
    let (g, at, same) = table_entry-same e d index n.entry h n.names in
    let (out, written, back) =
      encode_integer-ReadsBack index (prefix_of never_index) (prefix_bits_of never_index) room small
        (prefix_fine never_index) fits in
    (
      out,
      encode_known index room never_index header n.positive small ∙ written,
      record {
        short = omega (arith, back.short);
        some_byte = back.some_byte;
        kept = back.kept ∙ prefix_kept never_index;
        read = g.name;
        written = false;
        same = ap Field.name same ∙ n.same_name;
        reads = λ rest nv_offset capacity _ _.
            ap
              (λ (r : Result (ℕ × Bytes)).
                r >>= λ found. name_at d found.0 found.1 nv_offset capacity)
              (back.reads rest)
            ∙ name_known d index g rest nv_offset capacity n.positive at;
      },
    )

index_zero :
    (never_index : Bool) (rest : Bytes)
    → read_integer (prefix_of never_index ∷ rest) (prefix_bits_of never_index) ≡ ok (0, rest)
unfolding read_integer decode_integer
index_zero true rest =
    let filled : (length (0x10 ∷ rest) == 0) ≡ false = ground arith in rw filled refl
index_zero false rest =
    let filled : (length (0x40 ∷ rest) == 0) ≡ false = ground arith in rw filled refl

name_new :
    (d : Table) (name : Bytes) (behind rest : Bytes) (nv_offset capacity : ℕ)
    → read_string behind nv_offset capacity ≡ ok (name, rest)
    → name_at d 0 behind nv_offset capacity ≡ ok (name, true, rest)
unfolding name_at
name_new d name behind rest nv_offset capacity e = rw e refl

encode_new :
    (room : ℕ) (never_index : Bool) (header : Field) (name : Bytes)
    → 0 < room
    → encode_header_string header.name (room - 1) ≡ ok name
    → encode_name 0 never_index header room ≡ ok (prefix_of never_index ∷ name)
unfolding encode_name
encode_new room never_index header name p e =
    let held : ltb 0 room ≡ true = ground arith in rw (held, e) refl

pub new-IsName :
    (d : Table) (never_index : Bool) (header : Field) (room : ℕ)
    → IsHeader header
    → 7 + length header.name ≤ room
    → (out : Bytes) × (encode_name 0 never_index header room ≡ ok out)
      × IsName d never_index header.name out
unfolding read_name
new-IsName d never_index header room h fits =
    let (name, e, string) =
      encode_header_string-IsString header.name (room - 1) h.name_bytes (omega (arith, h.small))
        (omega arith) in
    (
      prefix_of never_index ∷ name,
      encode_new room never_index header name (omega arith) e,
      record {
        short = omega (arith, string.short);
        some_byte = omega arith;
        kept = prefix_kept never_index;
        read = header.name;
        written = true;
        same = refl;
        reads = λ rest nv_offset capacity room small.
            ap
              (λ (r : Result (ℕ × Bytes)).
                r >>= λ found. name_at d found.0 found.1 nv_offset capacity)
              (index_zero never_index (name ++ rest))
            ∙ name_new d header.name (name ++ rest) rest nv_offset capacity
                (string.reads rest nv_offset capacity room small);
      },
    )
