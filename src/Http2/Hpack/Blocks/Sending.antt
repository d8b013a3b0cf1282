-- ===== src/Http2/Hpack/Blocks/Sending.antt =====
-- HpackEncoder::Encode of src/KernelHttpLib/http2/Hpack.cpp on one header: whatever representation
-- it chooses, HpackDecoder::Decode reads the header back.
use win_kernel_http.Common.{
  ℕ, ◌+◌, ◌%◌, ◌^◌, ◌≤◌, ◌<◌, ◌≡◌, refl, ap, ◌∙◌, ◌⊎◌, inl, inr, Bool, true, false, Bool-cases,
  length, arith, ◌==◌, some, none,
}
use win_kernel_http.Common.Buffer.{Bytes, low_bits}
use win_kernel_http.Common.Status.{Result, ok}
use native.Mathlib.Nat.{mod-eq_of_lt}
use win_kernel_http.Http2.Hpack.Integer.{encode_integer}
use win_kernel_http.Http2.Hpack.Table.{Table, Field, Change, insert}
use win_kernel_http.Http2.Hpack.Names.{is_sensitive_header_name}
use win_kernel_http.Http2.Hpack.Decoder.{insert_piece}
use win_kernel_http.Http2.Hpack.Encoder.{
  Match, full, partial, find_match, encode_literal, index_header, with_literal, encode_matched,
  encode_header,
}
use win_kernel_http.Http2.Hpack.Blocks.Matching.{NamesField, IsMatch, find_match-IsMatch}
use win_kernel_http.Http2.Hpack.Blocks.Agreement.{Agree, entry_count_small, insert-Agree}
use win_kernel_http.Http2.Hpack.Blocks.Names.{IsHeader}
use win_kernel_http.Http2.Hpack.Blocks.Literals.{IsLiteral, encode_literal-IsLiteral}
use win_kernel_http.Http2.Hpack.Blocks.Headers.{
  text_size, IsSent, literal_field, literal_field-same, literal-IsSent, indexed-IsSent,
}

succeeded : (c : Change) → c.1 ≡ none → c ≡ (c.0, none)
succeeded (t, none) h = refl
succeeded (t, some status) h = cc

literal_written :
    (out : Bytes) (t : Table) (c : Change) → c.1 ≡ none → with_literal (ok out) t c ≡ (c.0, ok out)
literal_written out t (next, none) h = refl
literal_written out t (next, some status) h = cc

module _ (max_table_size header_capacity capacity limit : ℕ) (small_capacity : capacity < 2 ^ 62)
    (small_limit : limit < 2 ^ 64) (e d : Table) (header : Field) (room : ℕ) (h : Agree e d)
    (fine : IsHeader header) (fits : 13 + text_size header ≤ room) where
  -- The outcome of a round of `Encode` that the decoder reads back.
  abbrev pub Sends : Table × Result Bytes → Type 0
  Sends r =
      (out : Bytes) × (r.1 ≡ ok out)
      × IsSent max_table_size header_capacity capacity limit r.0 d header out

  never_indexed-Sends :
      (out : Bytes)
      → IsLiteral d true header out
      → Sends (with_literal (ok out) e (index_header (true, true) true header e))
  unfolding index_header insert_piece
  never_indexed-Sends out l = (
    out,
    refl,
    literal-IsSent max_table_size header_capacity capacity limit small_capacity small_limit d true
        header out l e d h λ index nv_offset rest. refl,
  )

  inserted-Sends :
      (out : Bytes)
      → IsLiteral d false header out
      → Sends (with_literal (ok out) e (index_header (true, true) false header e))
  unfolding index_header insert_piece
  inserted-Sends out l =
      let g =
        literal_field max_table_size header_capacity capacity limit small_capacity small_limit d
          false header out l in
      let same =
        literal_field-same max_table_size header_capacity capacity limit small_capacity small_limit
          d false header out l in
      let (sent, received, agree) = insert-Agree e d header g h same (omega (arith, fine.small)) in
      let change : Change = insert true true header.name header.value e in
      let stored : Change = insert true true g.name g.value d in
      rw (literal_written out e change sent) (
        out,
        refl,
        literal-IsSent max_table_size header_capacity capacity limit small_capacity small_limit d
            false header out l change.0 stored.0 agree
            λ index nv_offset rest. succeeded stored received,
      )

  literal-Sends :
      (never_index : Bool) (name_match : ℕ)
      → (name_match ≡ 0) ⊎ NamesField e header name_match
      → Sends (
          with_literal
            (encode_literal name_match never_index header room)
            e
            (index_header (true, true) never_index header e))
  literal-Sends true name_match found =
      let (out, written, l) =
        encode_literal-IsLiteral e d true header name_match room h fine found (omega arith) in
      rw written (never_indexed-Sends out l)
  literal-Sends false name_match found =
      let (out, written, l) =
        encode_literal-IsLiteral e d false header name_match room h fine found (omega arith) in
      rw written (inserted-Sends out l)

  indexed-Sends :
      (index : ℕ) (n : NamesField e header index)
      → n.entry.value ≡ header.value
      → Sends (e, encode_integer (low_bits index 32) 0x80 7 (some room))
  indexed-Sends index n valued =
      let small = entry_count_small e d h in
      let exact : index % 2 ^ 32 ≡ index = mod-eq_of_lt (omega (arith, n.within)) in
      let (out, written, sent) =
        indexed-IsSent max_table_size header_capacity capacity limit small_capacity small_limit e d
          header index room h n valued (omega arith) in
      (out, ap (λ (i : ℕ). encode_integer i 0x80 7 (some room)) exact ∙ written, sent)

  matched-Sends :
      (m : Match) → IsMatch e header m → Sends (encode_matched (true, true) e header room m)
  unfolding encode_matched
  matched-Sends (full index) (n, valued) =
      elim (Bool-cases (is_sensitive_header_name header.name)) [
        | inl never ↦ rw never (literal-Sends true index (inr n))
        | inr normal ↦ rw normal (indexed-Sends index n valued)
      ]
  matched-Sends (partial name_match) found =
      literal-Sends (is_sensitive_header_name header.name) name_match found

  -- With room for its text and thirteen bytes more, every header is written so that the decoder
  -- reads it back, and the tables stay together.
  pub encode_header-Sends : Sends (encode_header (true, true) e header room)
  unfolding encode_header
  encode_header-Sends =
      let named : (length header.name == 0) ≡ false = ground (arith, fine.named) in
      rw named (matched-Sends (find_match e header) (find_match-IsMatch e header))
