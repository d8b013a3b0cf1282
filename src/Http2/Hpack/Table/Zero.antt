-- ===== src/Http2/Hpack/Table/Zero.antt =====
-- A table of src/KernelHttpLib/http2/Hpack.cpp that Initialize sets up without storage.
use win_kernel_http.Common.{
  ℕ, ◌+◌, ◌-◌, ◌^◌, ◌≤◌, ◌<◌, ◌≡◌, refl, Bool, false, ltb, ◌||◌, length, arith, none, some,
}
use win_kernel_http.Common.Buffer.{Bytes}
use win_kernel_http.Common.Status.{ok, insufficient_resources}
use win_kernel_http.Http2.Hpack.Table.{
  Table, and_then, insert, update_max_size, initialize_table, reset_table, evict_while,
  compact_data, make_data_room, grow_data, make_entry_room, store, entry_overhead, max_size_t,
}
use win_kernel_http.Http2.Hpack.Table.Room.{data_limit}

abbrev empty_table : ℕ → Table → Table
empty_table limit old = record (reset_table old) { max_size = limit }

no_room :
    (data_allocated entries_allocated : Bool) (name value : Bytes) (t : Table)
    → t.entry_count ≡ 0
    → t.entry_capacity ≡ 0
    → t.data_used ≡ 0
    → length name + length value + entry_overhead ≤ t.max_size
    → t.max_size < 2 ^ 61
    → (and_then (make_data_room data_allocated (length name + length value) t) λ roomy.
        and_then
          (make_entry_room entries_allocated roomy)
          λ ready. (store name value ready, none)).1
      ≡ some insufficient_resources
unfolding make_data_room grow_data make_entry_room compact_data
no_room data_allocated entries_allocated name value t a b c d e =
    rw (data_limit t.max_size e) (ground arith)

update_empty :
    (limit : ℕ) (old : Table) → update_max_size limit (empty_table 0 old) ≡ empty_table limit old
unfolding update_max_size evict_while compact_data reset_table
update_empty limit old = refl

-- A table that `Initialize` sets up with size 0, and whose limit `UpdateMaxSize` raises to less
-- than 2^61: `Insert` of any field that fits the limit fails with STATUS_INSUFFICIENT_RESOURCES,
-- whether or not there is memory.
pub insert-empty_table :
    (data_allocated entries_allocated : Bool) (name value : Bytes) (limit : ℕ) (old : Table)
    → length name + length value + entry_overhead ≤ limit
    → limit < 2 ^ 61
    → (t : Table) × (initialize_table data_allocated entries_allocated 0 old ≡ ok t)
      × ((insert data_allocated entries_allocated name value (update_max_size limit t)).1
          ≡ some insufficient_resources)
unfolding initialize_table insert evict_while reset_table
insert-empty_table data_allocated entries_allocated name value limit old h l =
    let needed = length name + length value in
    let fits_in : (ltb (max_size_t - length value) (length name)
          || ltb (max_size_t - entry_overhead) needed)
        ≡ false =
      ground arith in
    let fits : ltb limit (needed + entry_overhead) ≡ false = ground arith in
    (
      empty_table 0 old,
      refl,
      rw (update_empty limit old, fits_in, fits)
          (no_room data_allocated entries_allocated name value (empty_table limit old) refl refl
            refl h l),
    )
