-- ===== src/Http2/Hpack/Blocks/Literals.antt =====
-- Literal header fields between HpackEncoder::Encode and HpackDecoder::Decode of
-- src/KernelHttpLib/http2/Hpack.cpp.
use win_kernel_http.Common.{
  ℕ, ◌++◌, ◌+◌, ◌-◌, ◌*◌, ◌^◌, ◌≤◌, ◌<◌, ◌≡◌, refl, ap, ◌∙◌, ◌⊎◌, inl, inr, Bool, true, length,
  arith, length-append, if◌then◌else◌,
}
use win_kernel_http.Common.Buffer.{Bytes, byte_at}
use win_kernel_http.Common.Status.{ok}
use mathlib.Core.List.{append_assoc}
use win_kernel_http.Http2.Hpack.Integer.{high_bits}
use win_kernel_http.Http2.Hpack.Table.{Table, Field}
use win_kernel_http.Http2.Hpack.Strings.{encode_header_string, read_string}
use win_kernel_http.Http2.Hpack.Strings.RoundTrip.{
  byte_at-append, IsString, encode_header_string-IsString,
}
use win_kernel_http.Http2.Hpack.Decoder.{read_name, read_literal}
use win_kernel_http.Http2.Hpack.Encoder.{encode_name, encode_literal}
use win_kernel_http.Http2.Hpack.Blocks.Fold.{fold_name, length-fold_name}
use win_kernel_http.Http2.Hpack.Blocks.Matching.{NamesField}
use win_kernel_http.Http2.Hpack.Blocks.Agreement.{Agree}
use win_kernel_http.Http2.Hpack.Blocks.Names.{
  prefix_of, prefix_bits_of, IsHeader, IsName, known-IsName, new-IsName,
}

-- A literal that is read back in front of anything: its field up to the case of the name, into an
-- output buffer with room for twice its length.
pub record IsLiteral (d : Table) (never_index : Bool) (header : Field) (out : Bytes) : Type 0 where
  pub short : length out ≤ 13 + length header.name + length header.value
  pub some_byte : 1 ≤ length out
  pub kept : high_bits (byte_at out 0) (prefix_bits_of never_index) ≡ prefix_of never_index
  pub read : Bytes
  pub written : Bool
  pub same : fold_name read ≡ fold_name header.name
  pub reads :
      (rest : Bytes) (nv_offset capacity : ℕ) (add : Bool)
      → nv_offset + 2 * (length header.name + length header.value) ≤ capacity
      → capacity < 2 ^ 62
      → read_literal d (prefix_bits_of never_index) add (out ++ rest) nv_offset capacity
        ≡ ok (record {
          field = record { name = read; value = header.value };
          name_written = written;
          value_written = true;
          add_to_table = add;
          nv_offset =
              (if written then nv_offset + length read else nv_offset) + length header.value;
          behind = rest;
        })

module _ (d : Table) (never_index : Bool) (header : Field) (name value : Bytes)
    (n : IsName d never_index header.name name) (v : IsString header.value value) where
  literal_read :
      (rest : Bytes) (nv_offset capacity used : ℕ) (add : Bool)
      → used ≡ (if n.written then nv_offset + length n.read else nv_offset)
      → read_name d (prefix_bits_of never_index) (name ++ (value ++ rest)) nv_offset capacity
        ≡ ok (n.read, n.written, value ++ rest)
      → read_string (value ++ rest) used capacity ≡ ok (header.value, rest)
      → read_literal d (prefix_bits_of never_index) add (name ++ (value ++ rest)) nv_offset capacity
        ≡ ok (record {
          field = record { name = n.read; value = header.value };
          name_written = n.written;
          value_written = true;
          add_to_table = add;
          nv_offset = used + length header.value;
          behind = rest;
        })
  unfolding read_literal
  literal_read rest nv_offset capacity used add e named valued = rw (named, ← e, valued) refl

  both-IsLiteral : IsLiteral d never_index header (name ++ value)
  both-IsLiteral = record {
    short = omega (arith, length-append name value, n.short, v.short);
    some_byte = omega (arith, length-append name value, n.some_byte);
    kept = rw (byte_at-append name value n.some_byte) n.kept;
    read = n.read;
    written = n.written;
    same = n.same;
    reads = λ rest nv_offset capacity add room small.
        let same_length : length n.read ≡ length header.name = same_size in
        let used : ℕ = (if n.written then nv_offset + length n.read else nv_offset) in
        rw (append_assoc name value rest) (
          literal_read rest nv_offset capacity used add refl
            (n.reads (value ++ rest) nv_offset capacity (omega arith) small)
            (v.reads rest used capacity (ground arith) small));
  }
    where
      same_size : length n.read ≡ length header.name
      same_size =
          omega (arith, ap length n.same, length-fold_name n.read, length-fold_name header.name)

literal_encoded :
    (name_match room : ℕ) (never_index : Bool) (header : Field) (name value : Bytes)
    → encode_name name_match never_index header room ≡ ok name
    → encode_header_string header.value (room - length name) ≡ ok value
    → encode_literal name_match never_index header room ≡ ok (name ++ value)
unfolding encode_literal
literal_encoded name_match room never_index header name value e e' = rw (e, e') refl

-- With room for its bytes and thirteen more, a literal is written and read back, whether its name
-- is new or has been found.
pub encode_literal-IsLiteral :
    (e d : Table) (never_index : Bool) (header : Field) (name_match room : ℕ)
    → Agree e d
    → IsHeader header
    → (name_match ≡ 0) ⊎ NamesField e header name_match
    → 13 + length header.name + length header.value ≤ room
    → (out : Bytes) × (encode_literal name_match never_index header room ≡ ok out)
      × IsLiteral d never_index header out
encode_literal-IsLiteral e d never_index header name_match room h ok_header found fits =
    let (name, written, n) = head found in
    let (value, written', v) =
      encode_header_string-IsString header.value (room - length name) ok_header.value_bytes
        (omega (arith, ok_header.small)) (omega (arith, n.short)) in
    (
      name ++ value,
      literal_encoded name_match room never_index header name value written written',
      both-IsLiteral d never_index header name value n v,
    )
  where
    head :
        (name_match ≡ 0) ⊎ NamesField e header name_match
        → (out : Bytes) × (encode_name name_match never_index header room ≡ ok out)
          × IsName d never_index header.name out
    head (inr n) = known-IsName e d never_index header name_match room h n (omega arith)
    head (inl z) =
        let (name, written, n) = new-IsName d never_index header room ok_header (omega arith) in
        (name, ap (λ (m : ℕ). encode_name m never_index header room) z ∙ written, n)
