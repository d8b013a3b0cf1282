-- ===== src/Http2/Hpack/Blocks/Rounds.antt =====
-- The rounds of HpackDecoder::Decode of src/KernelHttpLib/http2/Hpack.cpp on a header field that
-- it has read.
use win_kernel_http.Common.{
  ℕ, [], ◌∷◌, ◌++◌, ◌+◌, ◌-◌, ◌^◌, ◌≤◌, ◌<◌, ◌≡◌, refl, Bool, true, false, ◌&&◌, length, arith, leb,
  some, none,
}
use win_kernel_http.Common.Status.{ok}
use win_kernel_http.Http2.Hpack.Integer.{high_bits}
use win_kernel_http.Http2.Hpack.Table.{Table}
use win_kernel_http.Http2.Hpack.Names.{range_fits, add_header_list_size}
use win_kernel_http.Http2.Hpack.Decoder.{
  indexed, literal_indexing, literal, size_update, representation, materialize, Piece, Progress,
  place_piece, insert_piece, emit_header, take_piece, insert_and_emit,
}

pub representation_indexed : (byte : ℕ) → high_bits byte 7 ≡ 0x80 → representation byte ≡ indexed
unfolding representation
representation_indexed byte h = ground arith

pub representation_literal_indexing :
    (byte : ℕ) → high_bits byte 6 ≡ 0x40 → representation byte ≡ literal_indexing
unfolding representation
representation_literal_indexing byte h = ground arith

pub representation_literal : (byte : ℕ) → high_bits byte 4 ≡ 0x10 → representation byte ≡ literal
unfolding representation
representation_literal byte h = ground arith

pub representation_size_update :
    (byte : ℕ) → high_bits byte 5 ≡ 0x20 → representation byte ≡ size_update
unfolding representation
representation_size_update byte h = ground arith

-- What a part still takes of the output buffer.
abbrev pub unplaced : Bool → ℕ → ℕ
unplaced true n = 0
unplaced false n = n

materialize_fits :
    (written : Bool) (n capacity offset : ℕ)
    → offset + unplaced written n ≤ capacity
    → materialize written n capacity offset ≡ ok (offset + unplaced written n)
unfolding materialize range_fits
materialize_fits true n capacity offset h = let e : offset + 0 ≡ offset = omega arith in rw e refl
materialize_fits false n capacity offset h =
    let held : (leb offset capacity && leb n (capacity - offset)) ≡ true = ground arith in
    rw held refl

list_size_fits :
    (n v limit size : ℕ)
    → size + (n + v + 32) ≤ limit
    → limit < 2 ^ 64
    → add_header_list_size n v limit size ≡ some (size + (n + v + 32))
unfolding add_header_list_size
list_size_fits n v limit size h small = ground arith

-- The output buffer in use behind a header field.
abbrev pub placed : Piece → ℕ
placed piece =
    piece.nv_offset
    + unplaced piece.name_written (length piece.field.name)
    + unplaced piece.value_written (length piece.field.value)

abbrev pub always : ℕ → Bool × Bool
always index = (true, true)

module _ (max_table_size header_capacity capacity limit : ℕ) where
  -- The variables behind a round that emits a header.
  abbrev pub emitted : Piece → Progress → Progress
  emitted piece p = record {
    headers = p.headers ++ (piece.field ∷ []);
    nv_offset = placed piece;
    header_list_size =
        p.header_list_size + (length piece.field.name + length piece.field.value + 32);
    allow_table_size_update = false;
    behind = piece.behind;
  }

  -- Where everything has room, a header field is placed, inserted if it is to be, and emitted.
  pub take_piece_lem :
      (t next : Table) (piece : Piece) (p : Progress)
      → placed piece ≤ capacity
      → p.header_list_size + (length piece.field.name + length piece.field.value + 32) ≤ limit
      → limit < 2 ^ 64
      → length p.headers < header_capacity
      → insert_piece always max_table_size header_capacity capacity limit piece (length p.headers) t
        ≡ (next, none)
      → take_piece always max_table_size header_capacity capacity limit t p (ok piece)
        ≡ (next, ok (emitted piece p))
  unfolding take_piece place_piece insert_and_emit emit_header
  take_piece_lem t next piece p room listed small free inserted =
      let named =
        materialize_fits piece.name_written (length piece.field.name) capacity piece.nv_offset
          (omega arith) in
      let valued =
        materialize_fits piece.value_written (length piece.field.value) capacity
          (piece.nv_offset + unplaced piece.name_written (length piece.field.name)) room in
      let sized =
        list_size_fits (length piece.field.name) (length piece.field.value) limit p.header_list_size
          listed small in
      let left : leb header_capacity (length p.headers) ≡ false = ground arith in
      rw (named, valued, sized, inserted, left) refl
