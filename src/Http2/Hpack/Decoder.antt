-- ===== src/Http2/Hpack/Decoder.antt =====
-- HpackDecoder of src/KernelHttpLib/http2/Hpack.cpp. What is left of the block stands for `block`
-- and `offset`, a header for the two texts it points at: a part of the output buffer is written once,
-- behind all others. Whether the two allocations of an insertion succeed is an argument, by the
-- number of headers before it.
use win_kernel_http.Common.{
  ℕ, zero, suc, List, [], ◌∷◌, ◌++◌, ◌+◌, ◌-◌, ◌/◌, ◌%◌, Bool, true, false, not, ◌||◌, ltb, leb,
  ◌==◌, if◌then◌else◌, Option, none, some, length,
}
use win_kernel_http.Common.Buffer.{Bytes, has_bit}
use win_kernel_http.Common.Status.{
  Status, invalid_network_response, buffer_too_small, Result, ok, err, ◌>>=◌, ◌>>◌, require,
}
use win_kernel_http.Http2.Hpack.Table.{
  Table, Field, lookup, insert, update_max_size, initialize_table, reset_table, max_size_t,
}
use win_kernel_http.Http2.Hpack.Table.Spec.{nth_field}
use win_kernel_http.Http2.Hpack.StaticTable.{static_table, static_table_size}
use win_kernel_http.Http2.Hpack.Names.{range_fits, add_header_list_size}
use win_kernel_http.Http2.Hpack.Strings.{read_integer, read_string}

pub record HpackDecoder : Type 0 where
  pub table : Table
  pub max_table_size : ℕ

-- `Initialize`, with the status of the two allocations of the table.
unfoldable pub initialize_decoder : Bool → Bool → ℕ → HpackDecoder → Result HpackDecoder
initialize_decoder data_allocated entries_allocated max_table_size d = do
  table ← initialize_table data_allocated entries_allocated max_table_size d.table
  ok (record { table = table; max_table_size = max_table_size })

unfoldable pub reset_decoder : HpackDecoder → HpackDecoder
reset_decoder d = record d { table = reset_table d.table }

unfoldable pub update_decoder_max_table_size : ℕ → HpackDecoder → HpackDecoder
update_decoder_max_table_size max_table_size d = record {
  table = update_max_size max_table_size d.table;
  max_table_size = max_table_size;
}

-- The entry that a positive index names, in the static table or behind it in the dynamic one.
unfoldable pub table_entry : Table → ℕ → Option Field
table_entry t index =
    if leb index static_table_size
    then nth_field (index - 1) static_table
    else lookup (index - static_table_size - 1) t

abbrev pub or_invalid : Option Field → Result Field
or_invalid none = err invalid_network_response
or_invalid (some f) = ok f

unfoldable pub indexed_field : Table → ℕ → Result Field
indexed_field t index = or_invalid (table_entry t index)

-- A header field as it is read off the block. A part that was decoded from a literal stands in the
-- output buffer already, where the first `nv_offset` bytes are in use; one from a table does not.
pub record Piece : Type 0 where
  pub field : Field
  pub name_written : Bool
  pub value_written : Bool
  pub add_to_table : Bool
  pub nv_offset : ℕ
  pub behind : Bytes

-- "Indexed Header Field"
unfoldable pub read_indexed : Table → Bytes → ℕ → Result Piece
read_indexed t rest nv_offset = do
  (index, behind) ← read_integer rest 7
  require (not (index == 0)) invalid_network_response
  field ← indexed_field t index
  ok (record {
    field = field;
    name_written = false;
    value_written = false;
    add_to_table = false;
    nv_offset = nv_offset;
    behind = behind;
  })

-- The name that an index names, or the one on the wire for index 0: its bytes, whether they stand
-- in the output buffer, and what is left behind them.
unfoldable pub name_at : Table → ℕ → Bytes → ℕ → ℕ → Result (Bytes × Bool × Bytes)
name_at t index rest nv_offset capacity =
    if ltb 0 index
    then (do field ← indexed_field t index; ok (field.name, false, rest))
    else (do (name, behind) ← read_string rest nv_offset capacity; ok (name, true, behind))

-- The index in front of a literal and the name.
unfoldable pub read_name : Table → ℕ → Bytes → ℕ → ℕ → Result (Bytes × Bool × Bytes)
read_name t bits rest nv_offset capacity = do
  (index, behind) ← read_integer rest bits
  name_at t index behind nv_offset capacity

-- "Literal Header Field", where `bits` is 6 with incremental indexing and 4 without.
unfoldable pub read_literal : Table → ℕ → Bool → Bytes → ℕ → ℕ → Result Piece
read_literal t bits add_to_table rest nv_offset capacity = do
  (name, written, at_value) ← read_name t bits rest nv_offset capacity
  let used = (if written then nv_offset + length name else nv_offset)
  (value, behind) ← read_string at_value used capacity
  ok (record {
    field = record { name = name; value = value };
    name_written = written;
    value_written = true;
    add_to_table = add_to_table;
    nv_offset = used + length value;
    behind = behind;
  })

-- The first byte of a representation, by the tests of the code in their order.
pub data Representation : Type 0 where
  indexed literal_indexing literal size_update unknown : Representation

unfoldable pub representation : ℕ → Representation
representation byte =
    if has_bit byte 7
    then indexed
    else if byte / 64 % 4 == 1
    then literal_indexing
    else if byte / 16 % 16 == 0 || byte / 16 % 16 == 1
    then literal
    else if byte / 32 % 8 == 1
    then size_update
    else unknown

-- `MaterializeHeaderPart`: the new `*offset`. A part that stands in the buffer is not copied.
unfoldable pub materialize : Bool → ℕ → ℕ → ℕ → Result ℕ
materialize written length_ capacity offset =
    if written
    then ok offset
    else (do require (range_fits offset length_ capacity) buffer_too_small; ok (offset + length_))

-- `if (!AddHeaderListSize(...)) return STATUS_INVALID_NETWORK_RESPONSE;`
abbrev pub or_too_large : Option ℕ → Result ℕ
or_too_large none = err invalid_network_response
or_too_large (some size) = ok size

-- The local variables of `Decode`, with the headers emitted so far.
pub record Progress : Type 0 where
  pub headers : List Field
  pub nv_offset : ℕ
  pub header_list_size : ℕ
  pub allow_table_size_update : Bool
  pub behind : Bytes

-- The loop's test, and `block[offset]` where it holds.
abbrev pub on_first {ℓ} : {A : Type ℓ} → Bytes → A → (ℕ → A) → A
on_first [] stop go = stop
on_first (byte ∷ rest) stop go = go byte

abbrev pub and_continue :
    Table × Result Progress → (Table → Progress → Table × Result Progress) → Table × Result Progress
and_continue (t, err status) next = (t, err status)
and_continue (t, ok p) next = next t p

module _ (memory : ℕ → Bool × Bool)
    (max_table_size header_capacity capacity max_header_list_size : ℕ) where
  -- Both parts in the buffer, and the sizes counted.
  unfoldable pub place_piece : Piece → Progress → Result Progress
  place_piece piece p = do
    named ← materialize piece.name_written (length piece.field.name) capacity piece.nv_offset
    placed ← materialize piece.value_written (length piece.field.value) capacity named
    size ← or_too_large (
        add_header_list_size (length piece.field.name) (length piece.field.value)
          max_header_list_size p.header_list_size)
    ok (record {
      headers = p.headers ++ (piece.field ∷ []);
      nv_offset = placed;
      header_list_size = size;
      allow_table_size_update = false;
      behind = piece.behind;
    })

  unfoldable pub insert_piece : Piece → ℕ → Table → Table × Option Status
  insert_piece piece index t =
      if piece.add_to_table
      then insert (memory index).0 (memory index).1 piece.field.name piece.field.value t
      else (t, none)

  -- "Emit header", behind the insertion.
  unfoldable pub emit_header : Table × Option Status → ℕ → Progress → Table × Result Progress
  emit_header (t, some status) index next = (t, err status)
  emit_header (t, none) index next =
      if leb header_capacity index then (t, err buffer_too_small) else (t, ok next)

  unfoldable pub insert_and_emit : Table → Piece → ℕ → Result Progress → Table × Result Progress
  insert_and_emit t piece index (err status) = (t, err status)
  insert_and_emit t piece index (ok next) = emit_header (insert_piece piece index t) index next

  -- What a round does with the header field that it read.
  unfoldable pub take_piece : Table → Progress → Result Piece → Table × Result Progress
  take_piece t p (err status) = (t, err status)
  take_piece t p (ok piece) = insert_and_emit t piece (length p.headers) (place_piece piece p)

  -- "Dynamic Table Size Update"
  unfoldable pub read_size_update : Progress → Result (ℕ × Bytes)
  read_size_update p = do
    require p.allow_table_size_update invalid_network_response
    (new_size, behind) ← read_integer p.behind 5
    require (leb new_size max_table_size) invalid_network_response
    ok (new_size, behind)

  unfoldable pub resize_table : Table → Progress → Result (ℕ × Bytes) → Table × Result Progress
  resize_table t p (err status) = (t, err status)
  resize_table t p (ok (new_size, behind)) =
      (update_max_size new_size t, ok (record p { behind = behind }))

  unfoldable pub decode_as : Representation → Table → Progress → Table × Result Progress
  decode_as indexed t p = take_piece t p (read_indexed t p.behind p.nv_offset)
  decode_as literal_indexing t p =
      take_piece t p (read_literal t 6 true p.behind p.nv_offset capacity)
  decode_as literal t p = take_piece t p (read_literal t 4 false p.behind p.nv_offset capacity)
  decode_as size_update t p = resize_table t p (read_size_update p)
  decode_as unknown t p = (t, err invalid_network_response)

  -- `while (offset < blockLen)`, with at most `fuel` rounds.
  unfoldable pub decode_rounds : ℕ → Table → Progress → Table × Result Progress
  decode_rounds zero t p = (t, ok p)
  decode_rounds (suc fuel) t p =
      on_first p.behind (t, ok p)
        λ byte. and_continue (decode_as (representation byte) t p) (decode_rounds fuel)

abbrev pub start_of : Bytes → Progress
start_of block = record {
  headers = [];
  nv_offset = 0;
  header_list_size = 0;
  allow_table_size_update = true;
  behind = block;
}

-- The headers and `*nameValueUsed`.
abbrev pub finish_decode :
    HpackDecoder → Table × Result Progress → HpackDecoder × Result (List Field × ℕ)
finish_decode d (t, err status) = (record d { table = t }, err status)
finish_decode d (t, ok p) = (record d { table = t }, ok (p.headers, p.nv_offset))

-- `Decode` of a block, with pointers that are not null. Every round takes a byte at least.
unfoldable pub decode :
    (ℕ → Bool × Bool) → HpackDecoder → Bytes → ℕ → ℕ → ℕ → HpackDecoder × Result (List Field × ℕ)
decode memory d block header_capacity capacity max_header_list_size = finish_decode d (
    decode_rounds memory d.max_table_size header_capacity capacity max_header_list_size
      (length block) d.table (start_of block))

-- The overload of `Decode` without a limit of the header list.
unfoldable pub decode_unlimited :
    (ℕ → Bool × Bool) → HpackDecoder → Bytes → ℕ → ℕ → HpackDecoder × Result (List Field × ℕ)
decode_unlimited memory d block header_capacity capacity =
    decode memory d block header_capacity capacity max_size_t
