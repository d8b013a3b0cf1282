-- ===== src/Http2/Hpack/Blocks/Headers.antt =====
-- One header between HpackEncoder::Encode and HpackDecoder::Decode of
-- src/KernelHttpLib/http2/Hpack.cpp.
use win_kernel_http.Common.{
  ℕ, [], ◌∷◌, ◌++◌, ◌+◌, ◌*◌, ◌^◌, ◌≤◌, ◌<◌, ◌≡◌, refl, ap, ◌∙◌, Bool, true, false, not, length,
  arith, ◌==◌, if◌then◌else◌, some, none,
}
use win_kernel_http.Common.Buffer.{Bytes, byte_at}
use win_kernel_http.Common.Status.{ok}
use win_kernel_http.Http2.Hpack.Integer.{high_bits, encode_integer}
use win_kernel_http.Http2.Hpack.Table.{Table, Field}
use win_kernel_http.Http2.Hpack.Strings.{read_integer}
use win_kernel_http.Http2.Hpack.Strings.RoundTrip.{encode_integer-ReadsBack}
use win_kernel_http.Http2.Hpack.Decoder.{
  Representation, representation, table_entry, Piece, Progress, insert_piece, take_piece,
  read_indexed, read_literal, decode_as,
}
use win_kernel_http.Http2.Hpack.Blocks.Fold.{fold_field, length-fold_name}
use win_kernel_http.Http2.Hpack.Blocks.Matching.{NamesField}
use win_kernel_http.Http2.Hpack.Blocks.Agreement.{Agree, table_entry-same, entry_count_small}
use win_kernel_http.Http2.Hpack.Blocks.Names.{prefix_of, prefix_bits_of, indexed_field_found}
use win_kernel_http.Http2.Hpack.Blocks.Literals.{IsLiteral}
use win_kernel_http.Http2.Hpack.Blocks.Rounds.{
  always, placed, emitted, take_piece_lem, representation_indexed, representation_literal,
  representation_literal_indexing,
}

-- Name and value together.
abbrev pub text_size : Field → ℕ
text_size f = length f.name + length f.value

-- What the limits of a decoder must leave for a header.
pub record HasRoom (header_capacity capacity limit : ℕ) (p : Progress) (header : Field)
    : Type 0 where
  pub placed_in : p.nv_offset + 2 * text_size header ≤ capacity
  pub listed_in : p.header_list_size + (text_size header + 32) ≤ limit
  pub emitted_in : length p.headers < header_capacity

module _ (max_table_size header_capacity capacity limit : ℕ) where
  -- The variables behind a header that was read as `g`: at most twice its text is in use.
  pub record IsEmitted (p q : Progress) (g : Field) (rest : Bytes) : Type 0 where
    pub headers : q.headers ≡ p.headers ++ (g ∷ [])
    pub placed : q.nv_offset ≤ p.nv_offset + 2 * text_size g
    pub listed : q.header_list_size ≡ p.header_list_size + (text_size g + 32)
    pub closed : q.allow_table_size_update ≡ false
    pub left : q.behind ≡ rest

  -- A header on the wire: the round that reads it emits it and keeps the tables together.
  pub record IsSent (e d : Table) (header : Field) (out : Bytes) : Type 0 where
    pub short : length out ≤ 13 + text_size header
    pub some_byte : 1 ≤ length out
    pub next : Table
    pub read : Field
    pub same : fold_field read ≡ fold_field header
    pub agree : Agree e next
    pub emits :
        (p : Progress) (rest : Bytes)
        → p.behind ≡ out ++ rest
        → HasRoom header_capacity capacity limit p header
        → (q : Progress) × (decode_as always max_table_size header_capacity capacity limit
              (representation (byte_at out 0))
              d
              p
            ≡ (next, ok q))
          × IsEmitted p q read rest

  module _ (small_capacity : capacity < 2 ^ 62) (small_limit : limit < 2 ^ 64) where
    indexed_piece : Field → ℕ → Bytes → Piece
    indexed_piece g nv_offset rest = record {
      field = g;
      name_written = false;
      value_written = false;
      add_to_table = false;
      nv_offset = nv_offset;
      behind = rest;
    }

    read_indexed_lem :
        (d : Table) (index : ℕ) (g : Field) (out rest : Bytes) (nv_offset : ℕ)
        → 0 < index
        → table_entry d index ≡ some g
        → read_integer (out ++ rest) 7 ≡ ok (index, rest)
        → read_indexed d (out ++ rest) nv_offset ≡ ok (indexed_piece g nv_offset rest)
    unfolding read_indexed indexed_piece
    read_indexed_lem d index g out rest nv_offset p e back =
        let positive : (index == 0) ≡ false = ground arith in
        rw (back, positive, indexed_field_found d index g e) refl

    pub text_size-same : (f g : Field) → fold_field g ≡ fold_field f → text_size g ≡ text_size f
    text_size-same f g e = omega (
      arith,
      ap (λ (h : Field). length h.name) e,
      ap (λ (h : Field). length h.value) e,
      length-fold_name f.name,
      length-fold_name g.name,
    )

    pub indexed-IsSent :
        (e d : Table) (header : Field) (index room : ℕ)
        → Agree e d
        → (n : NamesField e header index) → n.entry.value ≡ header.value
        → 6 ≤ room
        → (out : Bytes) × (encode_integer index 0x80 7 (some room) ≡ ok out) × IsSent e d header out
    unfolding decode_as insert_piece indexed_piece
    indexed-IsSent e d header index room h n valued fits =
        let (g, at, same) = table_entry-same e d index n.entry h n.names in
        let (out, written, back) =
          encode_integer-ReadsBack index 0x80 7 room
            (omega (arith, entry_count_small e d h, n.within)) refl fits in
        let folded : fold_field n.entry ≡ fold_field header =
          λ i. record { name = n.same_name i; value = valued i } in
        let size = text_size-same header g (same ∙ folded) in
        (
          out,
          written,
          record {
            short = omega (arith, back.short);
            some_byte = back.some_byte;
            next = d;
            read = g;
            same = same ∙ folded;
            agree = h;
            emits = λ p rest block roomy.
                let piece = indexed_piece g p.nv_offset rest in
                let first = representation_indexed (byte_at out 0) back.kept in
                let read =
                  read_indexed_lem d index g out rest p.nv_offset n.positive at (back.reads rest) in
                (
                  emitted max_table_size header_capacity capacity limit piece p,
                  ap
                        (λ (r : Representation).
                          decode_as always max_table_size header_capacity capacity limit r d p)
                        first
                      ∙ ap
                          (λ (b : Bytes).
                            take_piece always max_table_size header_capacity capacity limit d p
                              (read_indexed d b p.nv_offset))
                          block
                      ∙ ap (take_piece always max_table_size header_capacity capacity limit d p)
                          read
                      ∙ take_piece_lem max_table_size header_capacity capacity limit d d piece p
                          (omega (arith, roomy.placed_in)) (omega (arith, roomy.listed_in))
                          small_limit roomy.emitted_in refl,
                  record {
                    headers = refl;
                    placed = omega arith;
                    listed = refl;
                    closed = refl;
                    left = refl;
                  },
                );
          },
        )

    decode_literal :
        (never_index : Bool) (byte : ℕ) (d : Table) (p : Progress)
        → high_bits byte (prefix_bits_of never_index) ≡ prefix_of never_index
        → decode_as always max_table_size header_capacity capacity limit (representation byte) d p
          ≡ take_piece always max_table_size header_capacity capacity limit d p (
              read_literal d
                (prefix_bits_of never_index)
                (not never_index)
                p.behind
                p.nv_offset
                capacity)
    unfolding decode_as
    decode_literal true byte d p h =
        ap
          (λ (r : Representation).
            decode_as always max_table_size header_capacity capacity limit r d p)
          (representation_literal byte h)
    decode_literal false byte d p h =
        ap
          (λ (r : Representation).
            decode_as always max_table_size header_capacity capacity limit r d p)
          (representation_literal_indexing byte h)

    module _ (d : Table) (never_index : Bool) (header : Field) (out : Bytes)
        (l : IsLiteral d never_index header out) where
      abbrev pub literal_field : Field
      literal_field = record { name = l.read; value = header.value }

      abbrev pub literal_piece : ℕ → Bytes → Piece
      literal_piece nv_offset rest = record {
        field = literal_field;
        name_written = l.written;
        value_written = true;
        add_to_table = not never_index;
        nv_offset =
            (if l.written then nv_offset + length l.read else nv_offset) + length header.value;
        behind = rest;
      }

      pub literal_field-same : fold_field literal_field ≡ fold_field header
      literal_field-same = λ i. record { name = l.same i; value = header.value }

      literal_placed :
          (nv_offset : ℕ) (rest : Bytes)
          → placed (literal_piece nv_offset rest) ≤ nv_offset + 2 * text_size literal_field
      literal_placed nv_offset rest = ground arith

      pub literal-IsSent :
          (e next : Table)
          → Agree e next
          → ((index nv_offset : ℕ) (rest : Bytes)
              → insert_piece always max_table_size header_capacity capacity limit
                  (literal_piece nv_offset rest)
                  index
                  d
                ≡ (next, none))
          → IsSent e d header out
      literal-IsSent e next agree inserted =
          let size = text_size-same header literal_field literal_field-same in
          record {
            short = omega (arith, l.short);
            some_byte = l.some_byte;
            next = next;
            read = literal_field;
            same = literal_field-same;
            agree = agree;
            emits = λ p rest block roomy.
                let piece = literal_piece p.nv_offset rest in
                let used = literal_placed p.nv_offset rest in
                let read =
                  l.reads rest p.nv_offset capacity (not never_index) roomy.placed_in
                    small_capacity in
                (
                  emitted max_table_size header_capacity capacity limit piece p,
                  decode_literal never_index (byte_at out 0) d p l.kept
                      ∙ ap
                          (λ (b : Bytes).
                            take_piece always max_table_size header_capacity capacity limit d p (
                              read_literal d (prefix_bits_of never_index) (not never_index) b
                                p.nv_offset capacity))
                          block
                      ∙ ap (take_piece always max_table_size header_capacity capacity limit d p)
                          read
                      ∙ take_piece_lem max_table_size header_capacity capacity limit d next piece p
                          (omega (arith, roomy.placed_in)) (omega (arith, roomy.listed_in))
                          small_limit roomy.emitted_in
                          (inserted (length p.headers) p.nv_offset rest),
                  record {
                    headers = refl;
                    placed = used;
                    listed = refl;
                    closed = refl;
                    left = refl;
                  },
                );
          }
