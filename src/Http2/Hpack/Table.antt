-- ===== src/Http2/Hpack/Table.antt =====
-- HpackDynamicTable of src/KernelHttpLib/http2/Hpack.cpp. The data buffer and the entry array are
-- functions from index to contents beside their capacities. The `name` and `value` of an insertion
-- are bytes outside the data buffer, as both callers pass them (the decoder its output buffer, the
-- encoder the headers of its caller), so the branches that follow a pointer into the buffer through
-- a move are not taken. Whether an allocation succeeds is an argument.
use win_kernel_http.Common.{
  ℕ, zero, suc, List, [], ◌∷◌, ◌+◌, ◌-◌, ◌*◌, ◌/◌, ◌%◌, ◌^◌, ◌≤◌, Bool, true, false, not, ◌&&◌,
  ◌||◌, ltb, leb, ◌==◌, if◌then◌else◌, Option, none, some, length,
}
use win_kernel_http.Common.Buffer.{Bytes, byte_at, low_bits}
use win_kernel_http.Common.Status.{
  Status, integer_overflow, invalid_network_response, insufficient_resources, Result, ok, err,
  ◌>>=◌, ◌>>◌, require, refuse,
}
pub mod Memory
pub mod Spec
pub mod View
pub mod Move
pub mod Compact
pub mod Evict
pub mod Room
pub mod Entries
pub mod Store
pub mod Insert
pub mod Run
pub mod Zero
mod Examples

abbrev pub entry_overhead : ℕ
entry_overhead = 32

abbrev pub max_size_t : ℕ
max_size_t = 2 ^ 64 - 1

pub record Entry : Type 0 where
  pub name_offset : ℕ
  pub name_length : ℕ
  pub value_offset : ℕ
  pub value_length : ℕ

pub record Table : Type 0 where
  pub data_ : ℕ → ℕ
  pub data_capacity : ℕ
  pub data_used : ℕ
  pub entries : ℕ → Entry
  pub entry_capacity : ℕ
  pub entry_count : ℕ
  pub entry_head : ℕ
  pub current_size : ℕ
  pub max_size : ℕ

-- A new array is zeroed.
abbrev pub no_entry : Entry
no_entry = record { name_offset = 0; name_length = 0; value_offset = 0; value_length = 0 }

-- `array[index] = x`
abbrev pub set_at {ℓ} : {A : Type ℓ} → (ℕ → A) → ℕ → A → ℕ → A
set_at array index x i = if i == index then x else array i

-- The upward loop of `MemMove`, with the number of rounds left; `MemCopy` is the same loop.
pub copy_up : ℕ → (ℕ → ℕ) → ℕ → ℕ → ℕ → ℕ
copy_up zero memory dst src = memory
copy_up (suc n) memory dst src = copy_up n (set_at memory dst (memory src)) (dst + 1) (src + 1)

-- The downward loop: `i` counts down from `len`.
pub copy_down : ℕ → (ℕ → ℕ) → ℕ → ℕ → ℕ → ℕ
copy_down zero memory dst src = memory
copy_down (suc i) memory dst src = copy_down i (set_at memory (dst + i) (memory (src + i))) dst src

-- `MemMove` within one buffer, by offsets.
pub mem_move : (ℕ → ℕ) → ℕ → ℕ → ℕ → ℕ → ℕ
mem_move memory dst src len =
    if dst == src || len == 0
    then memory
    else if ltb dst src
    then copy_up len memory dst src
    else copy_down len memory dst src

-- `MemCopy` of bytes from outside the buffer.
pub mem_copy : (ℕ → ℕ) → ℕ → Bytes → ℕ → ℕ
mem_copy memory dst [] = memory
mem_copy memory dst (b ∷ bs) = mem_copy (set_at memory dst b) (dst + 1) bs

-- `DynamicTableDataCapacityLimit`.
pub data_capacity_limit : ℕ → ℕ
data_capacity_limit max_size =
    if ltb ((max_size_t - 1024) / 2) max_size then max_size_t else max_size * 2 + 1024

-- `Reset`; `maxSize_` stays.
pub reset_table : Table → Table
reset_table t = record {
  data_ = λ i. 0;
  data_capacity = 0;
  data_used = 0;
  entries = λ i. no_entry;
  entry_capacity = 0;
  entry_count = 0;
  entry_head = 0;
  current_size = 0;
  max_size = t.max_size;
}

-- `Initialize`, with the status of its two allocations. `limit < 1024` cannot hold.
pub initialize_table : Bool → Bool → ℕ → Table → Result Table
unfolding reset_table
initialize_table data_allocated entries_allocated max_size t =
    let fresh = record (reset_table t) { max_size = max_size } in
    let limit = data_capacity_limit max_size in
    if max_size == 0
    then ok fresh
    else if not data_allocated
    then err insufficient_resources
    else if not entries_allocated
    then err insufficient_resources
    else ok (record fresh {
      data_capacity = (if ltb limit 1024 then 1024 else limit);
      entry_capacity = 128;
    })

-- `(entryHead_ + index) % entryCapacity_`
abbrev pub slot : Table → ℕ → ℕ
slot t index = (t.entry_head + index) % t.entry_capacity

-- `Evict`.
pub evict : Table → Table
evict t =
    let e = t.entries (slot t (t.entry_count - 1)) in
    let count = t.entry_count - 1 in
    if t.entry_count == 0 then t else record t {
      current_size = t.current_size - (e.name_length + e.value_length + entry_overhead);
      entry_count = count;
      entry_head = (if count == 0 then 0 else t.entry_head);
      data_used = (if count == 0 then 0 else t.data_used);
    }

-- `while (currentSize_ + extra > maxSize_ && entryCount_ > 0) Evict();` on the number of entries,
-- which bounds the rounds.
unfoldable pub evict_while : ℕ → ℕ → Table → Table
unfolding evict
evict_while zero extra t = t
evict_while (suc fuel) extra t =
    let rest = evict_while fuel extra (evict t) in
    if ltb t.max_size (low_bits (t.current_size + extra) 64) && ltb 0 t.entry_count then rest else t

-- One round of the loop of `CompactData`, for the entry at `remaining`.
pub compact_step : ℕ → ℕ → Table → Table
compact_step remaining write_offset t =
    let k = slot t remaining in
    let e = t.entries k in
    let total = e.name_length + e.value_length in
    record t {
      data_ = (if total == 0 then t.data_ else mem_move t.data_ write_offset e.name_offset total);
      entries =
          set_at t.entries k
            (record e { name_offset = write_offset; value_offset = write_offset + e.name_length });
    }

-- The loop with `remaining` rounds left; the result's `data_used` is the final `writeOffset`.
pub compact_loop : ℕ → ℕ → Table → Table
unfolding compact_step
compact_loop zero write_offset t = record t { data_used = write_offset }
compact_loop (suc remaining) write_offset t =
    let e = t.entries (slot t remaining) in
    compact_loop remaining (write_offset + (e.name_length + e.value_length))
      (compact_step remaining write_offset t)

-- `CompactData` without offsets to follow.
pub compact_data : Table → Table
compact_data t =
    if t.entry_count == 0
    then record t { data_used = 0; entry_head = 0 }
    else compact_loop t.entry_count 0 t

-- `UpdateMaxSize`.
pub update_max_size : ℕ → Table → Table
update_max_size new_max_size t =
    compact_data (evict_while t.entry_count 0 (record t { max_size = new_max_size }))

-- Every insertion returns the table beside the status, since a failure leaves evictions behind;
-- `none` is STATUS_SUCCESS.
abbrev pub Change : Type 0
Change = Table × Option Status

-- `if (!NT_SUCCESS(status)) return status;` between two steps of `Insert`.
abbrev pub and_then : Change → (Table → Change) → Change
and_then (t, none) next = next t
and_then (t, some status) next = (t, some status)

-- `newCapacity` of the data buffer.
abbrev pub grown_capacity : ℕ → Table → ℕ
grown_capacity needed t =
    let doubled = low_bits (t.data_capacity * 2) 64 in
    let limit = data_capacity_limit t.max_size in
    let wanted =
      (if ltb doubled (t.data_used + needed + 1024)
        then t.data_used + needed + 1024
        else doubled) in
    if ltb limit wanted then limit else wanted

-- The second test of the data buffer: a larger one, with what is in use copied over.
pub grow_data : Bool → ℕ → Table → Change
unfolding data_capacity_limit
grow_data allocated needed t =
    let capacity = grown_capacity needed t in
    if leb (t.data_used + needed) t.data_capacity
    then (t, none)
    else if ltb capacity (t.data_used + needed)
    then (t, some invalid_network_response)
    else if not allocated
    then (t, some insufficient_resources)
    else (
      record t {
        data_ = (λ i. if ltb i t.data_used then t.data_ i else 0);
        data_capacity = capacity;
      },
      none,
    )

-- Both tests of the data buffer.
unfoldable pub make_data_room : Bool → ℕ → Table → Change
unfolding compact_data grow_data
make_data_room allocated needed t =
    if ltb (data_capacity_limit t.max_size) needed
    then (t, some invalid_network_response)
    else grow_data allocated needed
        (if ltb t.data_capacity (t.data_used + needed) then compact_data t else t)

-- The test of the entry array. An array of no entries is never allocated.
unfoldable pub make_entry_room : Bool → Table → Change
make_entry_room allocated t =
    let capacity = t.entry_capacity * 2 in
    if ltb t.entry_count t.entry_capacity
    then (t, none)
    else if not allocated || capacity == 0
    then (t, some insufficient_resources)
    else (
      record t {
        entries = (λ i. if ltb i t.entry_count then t.entries (slot t i) else no_entry);
        entry_capacity = capacity;
        entry_head = 0;
      },
      none,
    )

-- The stores behind the tests.
unfoldable pub store : Bytes → Bytes → Table → Table
unfolding mem_copy
store name value t =
    let value_offset = t.data_used + length name in
    let head = (if t.entry_head == 0 then t.entry_capacity - 1 else t.entry_head - 1) in
    record t {
      data_ = mem_copy (mem_copy t.data_ t.data_used name) value_offset value;
      data_used = value_offset + length value;
      entries = set_at t.entries head (record {
        name_offset = t.data_used;
        name_length = length name;
        value_offset = value_offset;
        value_length = length value;
      });
      entry_head = head;
      entry_count = t.entry_count + 1;
      current_size = t.current_size + (length name + length value + entry_overhead);
    }

-- `Insert`.
unfoldable pub insert : Bool → Bool → Bytes → Bytes → Table → Change
unfolding evict_while make_data_room make_entry_room store
insert data_allocated entries_allocated name value t =
    let needed = length name + length value in
    let size = needed + entry_overhead in
    if ltb (max_size_t - length value) (length name) || ltb (max_size_t - entry_overhead) needed
    then (t, some integer_overflow)
    else if ltb t.max_size size
    then (record t { entry_count = 0; entry_head = 0; data_used = 0; current_size = 0 }, none)
    else and_then (make_data_room data_allocated needed (evict_while t.entry_count size t)) λ roomy.
      and_then (make_entry_room entries_allocated roomy) λ ready. (store name value ready, none)

-- `n` bytes from `offset` on.
pub read : (ℕ → ℕ) → ℕ → ℕ → Bytes
read memory offset zero = []
read memory offset (suc n) = memory offset ∷ read memory (offset + 1) n

pub record Field : Type 0 where
  pub name : Bytes
  pub value : Bytes

-- The name and value that an entry points at.
abbrev pub field_of : (ℕ → ℕ) → Entry → Field
field_of memory e = record {
  name = read memory e.name_offset e.name_length;
  value = read memory e.value_offset e.value_length;
}

-- `Lookup`, `none` where it returns false.
unfoldable pub lookup : ℕ → Table → Option Field
lookup index t =
    if leb t.entry_count index then none else some (field_of t.data_ (t.entries (slot t index)))
