-- ===== src/Http2/Hpack/Blocks/Limits.antt =====
-- The rounds of HpackDecoder::Decode of src/KernelHttpLib/http2/Hpack.cpp and the limits of its
-- caller.
use win_kernel_http.Common.{
  ℕ, zero, suc, List, [], ◌∷◌, ◌++◌, ◌+◌, ◌≤◌, ◌<◌, ◌≡◌, refl, ap, ◌∙◌, inl, inr, Bool, true, false,
  Bool-cases, leb, if◌then◌else◌, ◌*◌, Option, some, none, length, arith, length-append,
}
use win_kernel_http.Common.Buffer.{Bytes}
use win_kernel_http.Common.Status.{
  Status, invalid_network_response, Result, ok, err, Result-cases, bind-eq-ok,
}
use win_kernel_http.Http2.Hpack.Table.{Table, Field, max_size_t}
use win_kernel_http.Http2.Hpack.Names.{add_header_list_size}
use win_kernel_http.Http2.Hpack.Strings.{read_integer}
use win_kernel_http.Http2.Hpack.Blocks.Headers.{text_size}
use win_kernel_http.Http2.Hpack.Blocks.Delivery.{header_list_size_of}
use win_kernel_http.Http2.Hpack.Decoder.{
  Piece, Progress, Representation, indexed, literal_indexing, literal, size_update, unknown,
  representation, read_indexed, read_literal, materialize, or_too_large, place_piece, emit_header,
  insert_and_emit, take_piece, read_size_update, resize_table, decode_as, on_first, and_continue,
  decode_rounds,
}
use win_kernel_http.Http2.Hpack.Blocks.Parts.{
  require-ok, read_integer-shorter, IsPiece, read_indexed-IsPiece, read_literal-IsPiece,
  materialize-room, list_size-limit, written_size,
}

header_list_size_of-append :
    (fs : List Field) (f : Field)
    → header_list_size_of (fs ++ (f ∷ [])) ≡ header_list_size_of fs + (text_size f + 32)
header_list_size_of-append [] f = omega arith
header_list_size_of-append (g ∷ fs) f = omega (arith, header_list_size_of-append fs f)

module _ (memory : ℕ → Bool × Bool) (max_table_size header_capacity capacity limit : ℕ)
    (size_t : limit ≤ max_size_t) where
  -- The limits of the caller.
  pub record Within (p : Progress) : Type 0 where
    pub placed : p.nv_offset ≤ capacity
    pub filled : header_list_size_of p.headers ≡ p.nv_offset + 32 * length p.headers
    pub listed : header_list_size_of p.headers ≡ p.header_list_size
    pub limited : p.header_list_size ≤ limit
    pub counted : length p.headers ≤ header_capacity

  -- A round keeps the limits and takes a byte at least.
  abbrev IsRound : Progress → Progress → Type 0
  IsRound p q = Within q × (length q.behind < length p.behind)

  -- Whichever parts stood in the buffer already, both do now.
  all_written :
      (piece : Piece) (offset named placed : ℕ)
      → piece.nv_offset ≡ offset + written_size piece
      → named ≡ piece.nv_offset + (if piece.name_written then 0 else length piece.field.name)
      → placed ≡ named + (if piece.value_written then 0 else length piece.field.value)
      → placed ≡ offset + text_size piece.field
  all_written piece offset named placed used named_at placed_at = ground arith

  place_piece-IsRound :
      (piece : Piece) (p q : Progress)
      → Within p
      → IsPiece capacity p.behind p.nv_offset piece
      → place_piece memory max_table_size header_capacity capacity limit piece p ≡ ok q
      → length p.headers < header_capacity
      → IsRound p q
  unfolding place_piece
  place_piece-IsRound piece p q h (room, shorter, used) e free =
      let (named, e1, e2) =
        bind-eq-ok
          (materialize piece.name_written (length piece.field.name) capacity piece.nv_offset) _ e in
      let (placed, e3, e4) =
        bind-eq-ok (materialize piece.value_written (length piece.field.value) capacity named) _
          e2 in
      let (size, e5, e6) =
        bind-eq-ok
          (or_too_large (
            add_header_list_size (length piece.field.name) (length piece.field.value) limit
              p.header_list_size))
          _ e4 in
      let (first, named_at) =
        materialize-room piece.name_written _ capacity piece.nv_offset named room e1 in
      let (second, placed_at) =
        materialize-room piece.value_written _ capacity named placed first e3 in
      let (sum, low) = list_size-limit _ _ limit p.header_list_size size size_t e5 in
      let same : (record {
        headers = p.headers ++ (piece.field ∷ []);
        nv_offset = placed;
        header_list_size = size;
        allow_table_size_update = false;
        behind = piece.behind;
      })
          ≡ q =
        cc e6 in
      rw (← same) (
        record {
          placed = second;
          filled = omega (
            arith,
            header_list_size_of-append p.headers piece.field,
            length-append p.headers (piece.field ∷ []),
            h.filled,
            all_written piece p.nv_offset named placed used named_at placed_at,
          );
          listed = omega (arith, header_list_size_of-append p.headers piece.field, h.listed);
          limited = low;
          counted = omega (arith, length-append p.headers (piece.field ∷ []));
        },
        shorter,
      )

  emit_header-ok :
      (c : Table × Option Status) (index : ℕ) (next q : Progress) (t : Table)
      → emit_header memory max_table_size header_capacity capacity limit c index next ≡ (t, ok q)
      → (index < header_capacity) × (next ≡ q)
  unfolding emit_header
  emit_header-ok (t', some status) index next q t e = cc
  emit_header-ok (t', none) index next q t e = elim (Bool-cases (leb header_capacity index)) [
    | inl full ↦ let e' = rw full at e in cc
    | inr free ↦ let e' = rw free at e in let same : next ≡ q = cc e' in (ground arith, same)
  ]

  take_piece-IsRound :
      (t next : Table) (p q : Progress) (r : Result Piece)
      → Within p
      → ((piece : Piece) → r ≡ ok piece → IsPiece capacity p.behind p.nv_offset piece)
      → take_piece memory max_table_size header_capacity capacity limit t p r ≡ (next, ok q)
      → IsRound p q
  unfolding take_piece insert_and_emit
  take_piece-IsRound t next p q (err status) h read e = cc
  take_piece-IsRound t next p q (ok piece) h read e =
      elim (Result-cases
        (place_piece memory max_table_size header_capacity capacity limit piece p)) [
          | inr (status, failed) ↦ let e' = rw failed at e in cc
          | inl (placed, e1) ↦
              let (free, same) = emit_header-ok _ (length p.headers) placed q next (rw e1 at e) in
              place_piece-IsRound piece p q h (read piece refl) (e1 ∙ ap ok same) free
        ]

  resize_table-ok :
      (t next : Table) (p q : Progress) (r : Result (ℕ × Bytes))
      → resize_table memory max_table_size header_capacity capacity limit t p r ≡ (next, ok q)
      → (n : ℕ) × (behind : Bytes) × (r ≡ ok (n, behind)) × (record p { behind = behind } ≡ q)
  unfolding resize_table
  resize_table-ok t next p q (err status) e = cc
  resize_table-ok t next p q (ok (n, behind)) e = (n, behind, refl, cc e)

  size_update-IsRound :
      (t next : Table) (p q : Progress)
      → Within p
      → resize_table memory max_table_size header_capacity capacity limit t p
          (read_size_update memory max_table_size header_capacity capacity limit p)
        ≡ (next, ok q)
      → IsRound p q
  unfolding read_size_update
  size_update-IsRound t next p q h e =
      let (n, behind, read, same) = resize_table-ok t next p q _ e in
      let (_, e1) = require-ok p.allow_table_size_update invalid_network_response _ read in
      let ((size, left), measured, e2) = bind-eq-ok (read_integer p.behind 5) _ e1 in
      let (_, e3) = require-ok (leb size max_table_size) invalid_network_response _ e2 in
      let same' : left ≡ behind = cc e3 in
      let shorter = read_integer-shorter p.behind 5 size left measured in
      rw (← same) (
        record {
          placed = h.placed;
          filled = h.filled;
          listed = h.listed;
          limited = h.limited;
          counted = h.counted;
        },
        omega (arith, ap length same'),
      )

  decode_as-IsRound :
      (r : Representation) (t next : Table) (p q : Progress)
      → Within p
      → decode_as memory max_table_size header_capacity capacity limit r t p ≡ (next, ok q)
      → IsRound p q
  unfolding decode_as
  decode_as-IsRound indexed t next p q h e =
      take_piece-IsRound t next p q (read_indexed t p.behind p.nv_offset) h
        (λ piece. read_indexed-IsPiece t p.behind p.nv_offset capacity piece h.placed) e
  decode_as-IsRound literal_indexing t next p q h e =
      take_piece-IsRound t next p q (read_literal t 6 true p.behind p.nv_offset capacity) h
        (λ piece. read_literal-IsPiece t 6 true p.behind p.nv_offset capacity piece h.placed) e
  decode_as-IsRound literal t next p q h e =
      take_piece-IsRound t next p q (read_literal t 4 false p.behind p.nv_offset capacity) h
        (λ piece. read_literal-IsPiece t 4 false p.behind p.nv_offset capacity piece h.placed) e
  decode_as-IsRound size_update t next p q h e = size_update-IsRound t next p q h e
  decode_as-IsRound unknown t next p q h e = cc

  continue-ok :
      (c : Table × Result Progress) (k : Table → Progress → Table × Result Progress) (next : Table)
      (q : Progress)
      → and_continue c k ≡ (next, ok q)
      → (t : Table) × (p : Progress) × (c ≡ (t, ok p)) × (k t p ≡ (next, ok q))
  continue-ok (t, err status) k next q e = cc
  continue-ok (t, ok p) k next q e = (t, p, refl, e)

  -- The end of a block, and the limits behind it.
  abbrev pub IsEnd : Progress → Type 0
  IsEnd q = Within q × (length q.behind ≡ 0)

  first_round :
      (fuel : ℕ) (t next : Table) (p q : Progress) (left : Bytes)
      → p.behind ≡ left
      → Within p
      → length left ≤ suc fuel
      → ((t1 : Table) (p1 : Progress)
          → Within p1
          → length p1.behind ≤ fuel
          → decode_rounds memory max_table_size header_capacity capacity limit fuel t1 p1
            ≡ (next, ok q)
          → IsEnd q)
      → (on_first left
          (t, ok p)
          λ byte.
            and_continue
              (decode_as memory max_table_size header_capacity capacity limit
                (representation byte)
                t
                p)
              (decode_rounds memory max_table_size header_capacity capacity limit fuel))
        ≡ (next, ok q)
      → IsEnd q
  first_round fuel t next p q [] l h fuelled behind e =
      let same : p ≡ q = cc e in rw (← same) (h, ap length l)
  first_round fuel t next p q (byte ∷ left) l h fuelled behind e =
      let (t1, p1, round, rest) = continue-ok _ _ next q e in
      let (h1, shorter) = decode_as-IsRound (representation byte) t t1 p p1 h round in
      behind t1 p1 h1 (omega (arith, ap length l)) rest

  -- A run keeps the limits, and with a round for each byte it ends at the end of the block.
  pub decode_rounds-IsEnd :
      (fuel : ℕ) (t next : Table) (p q : Progress)
      → Within p
      → length p.behind ≤ fuel
      → decode_rounds memory max_table_size header_capacity capacity limit fuel t p ≡ (next, ok q)
      → IsEnd q
  unfolding decode_rounds
  decode_rounds-IsEnd zero t next p q h fuelled e =
      let same : p ≡ q = cc e in rw (← same) (h, omega arith)
  decode_rounds-IsEnd (suc fuel) t next p q h fuelled e =
      first_round fuel t next p q p.behind refl h fuelled
        (λ t1 p1. decode_rounds-IsEnd fuel t1 next p1 q) e
