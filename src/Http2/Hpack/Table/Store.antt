-- ===== src/Http2/Hpack/Table/Store.antt =====
-- The stores at the end of Insert in src/KernelHttpLib/http2/Hpack.cpp put a field in front.
use win_kernel_http.Common.{
  ℕ, zero, suc, ◌∷◌, ◌+◌, ◌-◌, ◌==◌, ◌≤◌, ◌<◌, ◌≡◌, ap, ◌∙◌, if◌then◌else◌, length, arith, inl,
}
use win_kernel_http.Common.Buffer.{Bytes}
use win_kernel_http.Http2.Hpack.Table.{Entry, Table, entry_overhead, store, read, mem_copy}
use win_kernel_http.Http2.Hpack.Table.Memory.{read_ext, read-mem_copy, mem_copy_outside}
use win_kernel_http.Http2.Hpack.Table.Spec.{total_size}
use win_kernel_http.Http2.Hpack.Table.View.{
  entry_at, field_at, view, view_from, view_ext, end_of, IsTable, slot_ne, slot_before, slot_zero,
}

abbrev new_entry : Bytes → Bytes → Table → Entry
new_entry name value t = record {
  name_offset = t.data_used;
  name_length = length name;
  value_offset = t.data_used + length name;
  value_length = length value;
}

-- A table with room for the field.
pub record HasRoom (t : Table) (name value : Bytes) : Type 0 where
  pub table : IsTable t
  pub free : t.entry_count < t.entry_capacity
  pub fits : t.data_used + (length name + length value) ≤ t.data_capacity
  pub sizes : t.current_size + (length name + length value + entry_overhead) ≤ t.max_size

module _ (t : Table) (name value : Bytes) (h : HasRoom t name value) where
  first_entry : entry_at (store name value t) 0 ≡ new_entry name value t
  unfolding entry_at store
  first_entry =
      let head = (if t.entry_head == 0 then t.entry_capacity - 1 else t.entry_head - 1) in
      ground (arith, h.table.laid, slot_zero head t.entry_capacity (ground (arith, h.table.laid)))

  later_entry : (i : ℕ) → i < t.entry_count → entry_at (store name value t) (suc i) ≡ entry_at t i
  unfolding entry_at store
  later_entry i k =
      let head = (if t.entry_head == 0 then t.entry_capacity - 1 else t.entry_head - 1) in
      let l = h.table.laid in
      let inside : head < t.entry_capacity = ground (arith, l) in
      ground (
        arith,
        slot_zero head t.entry_capacity inside,
        slot_ne head (suc i) 0 t.entry_capacity inside (omega (arith, h.free)) l.ring
            (ground arith),
        slot_before t.entry_head i t.entry_capacity l.head_in (omega (arith, h.free)),
      )

  stored_outside : (j : ℕ) → j < t.data_used → (store name value t).data_ j ≡ t.data_ j
  unfolding store
  stored_outside j k = ground (
    arith,
    mem_copy_outside (mem_copy t.data_ t.data_used name) (t.data_used + length name) value j
        (inl (omega arith)),
    mem_copy_outside t.data_ t.data_used name j (inl k),
  )

  stored_name : read (store name value t).data_ t.data_used (length name) ≡ name
  unfolding store
  stored_name =
      read_ext (length name) (store name value t).data_ (mem_copy t.data_ t.data_used name)
        t.data_used t.data_used
        (λ i k.
          mem_copy_outside (mem_copy t.data_ t.data_used name) (t.data_used + length name) value
            (t.data_used + i) (inl (omega arith)))
      ∙ read-mem_copy t.data_ t.data_used name

  stored_value : read (store name value t).data_ (t.data_used + length name) (length value) ≡ value
  unfolding store
  stored_value = read-mem_copy (mem_copy t.data_ t.data_used name) (t.data_used + length name) value

  stored_read :
      (offset n : ℕ)
      → offset + n ≤ t.data_used
      → read (store name value t).data_ offset n ≡ read t.data_ offset n
  stored_read offset n k =
      read_ext n (store name value t).data_ t.data_ offset offset
        λ i l. stored_outside (offset + i) (omega arith)

  first_field : field_at (store name value t) 0 ≡ (record { name = name; value = value })
  unfolding field_at
  first_field = ground (arith, first_entry, stored_name, stored_value)

  later_field : (i : ℕ) → i < t.entry_count → field_at (store name value t) (suc i) ≡ field_at t i
  unfolding field_at
  later_field i k =
      let e = entry_at t i in
      let joined = h.table.laid.joined i k in
      let below = h.table.laid.below i k in
      ground (
        arith,
        later_entry i k,
        stored_read e.name_offset e.name_length (omega arith),
        stored_read e.value_offset e.value_length (omega arith),
      )

  stored_count : (store name value t).entry_count ≡ suc t.entry_count
  unfolding store
  stored_count = omega arith

  pub store-view : view (store name value t) ≡ (record { name = name; value = value }) ∷ view t
  store-view =
      let rest = view_ext t.entry_count (store name value t) t 1 0 λ i k.
        let one : 1 + i ≡ suc i = omega arith in
        let none : 0 + i ≡ i = omega arith in rw (one, none) (later_field i k) in
      ap (view_from (store name value t) 0) stored_count
      ∙ ap (λ f. f ∷ view_from (store name value t) 1 t.entry_count) first_field
      ∙ ap (◌∷◌ (record { name = name; value = value })) rest

  -- An entry is the first one or an old one.
  store_joined :
      (i : ℕ)
      → i < suc t.entry_count
      → (entry_at (store name value t) i).value_offset
        ≡ (entry_at (store name value t) i).name_offset
          + (entry_at (store name value t) i).name_length
  store_joined zero k = ground (arith, first_entry)
  store_joined (suc i) k = ground (arith, later_entry i, h.table.laid.joined i)

  store_ordered :
      (i j : ℕ)
      → i < j
      → j < suc t.entry_count
      → end_of (entry_at (store name value t) j) ≤ (entry_at (store name value t) i).name_offset
  store_ordered i zero l k = absurd (omega arith)
  store_ordered zero (suc j) l k = ground (arith, first_entry, later_entry j, h.table.laid.below j)
  store_ordered (suc i) (suc j) l k =
      ground (arith, later_entry i, later_entry j, h.table.laid.ordered i j)

  store_below :
      (i : ℕ)
      → i < suc t.entry_count
      → end_of (entry_at (store name value t) i) ≤ t.data_used + length name + length value
  store_below zero k = ground (arith, first_entry)
  store_below (suc i) k = ground (arith, later_entry i, h.table.laid.below i)

  pub store-IsTable : IsTable (store name value t)
  store-IsTable =
      let whole = ap total_size store-view in
      unfold store in
      record {
        laid = record {
          ring = h.table.laid.ring;
          head_in = ground (arith, h.table.laid);
          count_in = omega (arith, h.free);
          used_in = omega (arith, h.fits);
          joined = λ i k. store_joined i (omega arith);
          ordered = λ i j l k. store_ordered i j l (omega arith);
          below = λ i k. store_below i (omega arith);
        };
        sized = omega (arith, whole, h.table.sized);
        small = h.table.small;
        size_small = omega (arith, h.sizes, h.table.small);
        data_small = h.table.data_small;
      }
