-- ===== src/Http2/Hpack/Encoder.antt =====
-- HpackEncoder of src/KernelHttpLib/http2/Hpack.cpp. A header is a name and a value that are not
-- null; whether the two allocations of an insertion succeed is an argument, by the number of
-- headers before it.
use win_kernel_http.Common.{
  ℕ, zero, suc, List, [], ◌∷◌, ◌++◌, ◌+◌, ◌-◌, Bool, true, false, ltb, ◌==◌, if◌then◌else◌, Option,
  none, some, length,
}
use win_kernel_http.Common.Buffer.{Bytes, low_bits}
use win_kernel_http.Common.Status.{
  Status, invalid_parameter, buffer_too_small, Result, ok, err, ◌>>=◌, ◌>>◌, require,
}
use win_kernel_http.Http2.Hpack.Integer.{encode_integer}
use win_kernel_http.Http2.Hpack.Table.{
  Table, Field, lookup, insert, update_max_size, initialize_table, reset_table,
}
use win_kernel_http.Http2.Hpack.StaticTable.{static_table, static_table_size}
use win_kernel_http.Http2.Hpack.Names.{name_equals, value_equals, is_sensitive_header_name}
use win_kernel_http.Http2.Hpack.Strings.{encode_header_string}

pub record HpackEncoder : Type 0 where
  pub table : Table
  pub max_table_size : ℕ
  pub pending_table_size : ℕ
  pub table_size_update_pending : Bool

unfoldable pub initialize_encoder : Bool → Bool → ℕ → HpackEncoder → Result HpackEncoder
initialize_encoder data_allocated entries_allocated max_table_size e = do
  table ← initialize_table data_allocated entries_allocated max_table_size e.table
  ok (record {
    table = table;
    max_table_size = max_table_size;
    pending_table_size = max_table_size;
    table_size_update_pending = false;
  })

unfoldable pub reset_encoder : HpackEncoder → HpackEncoder
reset_encoder e = record e { table = reset_table e.table; table_size_update_pending = false }

unfoldable pub update_encoder_max_table_size : ℕ → HpackEncoder → HpackEncoder
update_encoder_max_table_size max_table_size e =
    if e.max_table_size == max_table_size then e else record {
      table = update_max_size max_table_size e.table;
      max_table_size = max_table_size;
      pending_table_size = max_table_size;
      table_size_update_pending = true;
    }

-- A full match by its index, or `nameMatchIdx` where there is none so far.
pub data Match : Type 0 where
  full : ℕ → Match
  partial : ℕ → Match

-- A round of either loop of `FindMatch`, on the entry with the index `index`.
unfoldable pub match_entry : Field → Field → ℕ → ℕ → Match
match_entry header entry index name_match =
    if name_equals header.name entry.name
    then (if value_equals header.value entry.value
        then full index
        else partial (if name_match == 0 then index else name_match))
    else partial name_match

-- The loop over the static table, on the entries that are left.
unfoldable pub match_static : Field → List Field → ℕ → ℕ → Match
match_static header [] i name_match = partial name_match
match_static header (entry ∷ rest) i name_match =
    elim (match_entry header entry (i + 1) name_match) [
      | full index ↦ full index
      | partial next ↦ match_static header rest (i + 1) next
    ]

-- The loop over the dynamic table, with `left` rounds left.
unfoldable pub match_dynamic : Field → Table → ℕ → ℕ → ℕ → Match
match_dynamic header t zero i name_match = partial name_match
match_dynamic header t (suc left) i name_match = elim (lookup i t) [
  | none ↦ match_dynamic header t left (i + 1) name_match
  | some entry ↦ elim (match_entry header entry (static_table_size + i + 1) name_match) [
    | full index ↦ full index
    | partial next ↦ match_dynamic header t left (i + 1) next
  ]
]

unfoldable pub find_match : Table → Field → Match
find_match t header = elim (match_static header static_table 0 0) [
  | full index ↦ full index
  | partial name_match ↦ match_dynamic header t t.entry_count 0 name_match
]

-- The new name behind its prefix, or the index of a known one.
unfoldable pub encode_name : ℕ → Bool → Field → ℕ → Result Bytes
encode_name name_match never_index header room =
    let prefix : ℕ = (if never_index then 0x10 else 0x40) in
    let bits : ℕ = (if never_index then 4 else 6) in
    if ltb 0 name_match
    then encode_integer (low_bits name_match 32) prefix bits (some room)
    else (do
      require (ltb 0 room) buffer_too_small
      name ← encode_header_string header.name (room - 1)
      ok (prefix ∷ name))

unfoldable pub encode_literal : ℕ → Bool → Field → ℕ → Result Bytes
encode_literal name_match never_index header room = do
  name ← encode_name name_match never_index header room
  value ← encode_header_string header.value (room - length name)
  ok (name ++ value)

-- The table behind a literal, with `none` for STATUS_SUCCESS.
unfoldable pub index_header : Bool × Bool → Bool → Field → Table → Table × Option Status
index_header memory never_index header t =
    if never_index then (t, none) else insert memory.0 memory.1 header.name header.value t

abbrev pub with_literal : Result Bytes → Table → (Table × Option Status) → Table × Result Bytes
with_literal (err status) t indexed = (t, err status)
with_literal (ok out) t (next, none) = (next, ok out)
with_literal (ok out) t (next, some status) = (next, err status)

unfoldable pub encode_matched : Bool × Bool → Table → Field → ℕ → Match → Table × Result Bytes
encode_matched memory t header room (full index) =
    let never_index = is_sensitive_header_name header.name in
    if never_index
    then with_literal (encode_literal index never_index header room) t
        (index_header memory never_index header t)
    else (t, encode_integer (low_bits index 32) 0x80 7 (some room))
encode_matched memory t header room (partial name_match) =
    let never_index = is_sensitive_header_name header.name in
    with_literal (encode_literal name_match never_index header room) t
      (index_header memory never_index header t)

-- A round of the loop of `Encode`, where `room` bytes are left.
unfoldable pub encode_header : Bool × Bool → Table → Field → ℕ → Table × Result Bytes
encode_header memory t header room =
    if length header.name == 0
    then (t, err invalid_parameter)
    else encode_matched memory t header room (find_match t header)

abbrev pub append_out : Bytes → Table × Result Bytes → Table × Result Bytes
append_out front (t, err status) = (t, err status)
append_out front (t, ok out) = (t, ok (front ++ out))

abbrev pub and_encode :
    Table × Result Bytes → (Table → ℕ → Table × Result Bytes) → Table × Result Bytes
and_encode (t, err status) next = (t, err status)
and_encode (t, ok out) next = append_out out (next t (length out))

-- The loop, on the headers that are left.
unfoldable pub encode_rounds : (ℕ → Bool × Bool) → ℕ → Table → List Field → ℕ → Table × Result Bytes
encode_rounds memory index t [] room = (t, ok [])
encode_rounds memory index t (header ∷ headers) room =
    and_encode (encode_header (memory index) t header room)
      λ next used. encode_rounds memory (index + 1) next headers (room - used)

abbrev pub with_table : HpackEncoder → Table × Result Bytes → HpackEncoder × Result Bytes
with_table e (t, r) = (record e { table = t }, r)

-- The pending size update in front of the headers.
unfoldable pub encode_size_update : HpackEncoder → ℕ → Result Bytes
encode_size_update e room =
    if e.table_size_update_pending
    then encode_integer (low_bits e.pending_table_size 32) 0x20 5 (some room)
    else ok []

unfoldable pub encode_behind :
    (ℕ → Bool × Bool) → HpackEncoder → List Field → ℕ → Result Bytes → HpackEncoder × Result Bytes
encode_behind memory e headers capacity (err status) = (e, err status)
encode_behind memory e headers capacity (ok update) =
    with_table (record e { table_size_update_pending = false })
      (append_out update (encode_rounds memory 0 e.table headers (capacity - length update)))

-- `Encode`, with pointers that are not null.
unfoldable pub encode :
    (ℕ → Bool × Bool) → HpackEncoder → List Field → ℕ → HpackEncoder × Result Bytes
encode memory e headers capacity =
    encode_behind memory e headers capacity (encode_size_update e capacity)
