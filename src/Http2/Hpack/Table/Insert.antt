-- ===== src/Http2/Hpack/Table/Insert.antt =====
-- Insert of src/KernelHttpLib/http2/Hpack.cpp puts the field in front of those that fit beside it.
use win_kernel_http.Common.{
  ℕ, zero, suc, ◌∷◌, ◌+◌, ◌-◌, ◌^◌, ◌≤◌, ◌<◌, ◌≡◌, refl, sym, ap, ◌∙◌, true, false, ltb, leb,
  if◌then◌else◌, length, arith, Bool-cases, inl, inr, ◌||◌, none, some,
}
use win_kernel_http.Common.Buffer.{Bytes}
use win_kernel_http.Http2.Hpack.Table.{
  Table, Field, entry_overhead, max_size_t, Change, and_then, store, insert, lookup, evict_while,
  make_data_room, make_entry_room,
}
use win_kernel_http.Http2.Hpack.Table.Spec.{field_size, inserted, nth_field}
use win_kernel_http.Http2.Hpack.Table.View.{entry_at, field_at, view, view_from, IsTable}
use win_kernel_http.Http2.Hpack.Table.Evict.{IsRoomy, evict_while-IsRoomy}
use win_kernel_http.Http2.Hpack.Table.Room.{IsSame, then-IsSame, make_data_room-HasDataRoom}
use win_kernel_http.Http2.Hpack.Table.Entries.{make_entry_room-HasEntryRoom}
use win_kernel_http.Http2.Hpack.Table.Store.{HasRoom, store-view, store-IsTable}

pub and_then_success :
    (c : Change) (next : Table → Change) → c.1 ≡ none → and_then c next ≡ next c.0
and_then_success (t, none) next h = refl
and_then_success (t, some status) next h = ground arith

-- What `Insert` leaves behind.
pub record IsInserted (c : Change) (t : Table) (f : Field) : Type 0 where
  pub succeeds : c.1 ≡ none
  pub table : IsTable c.0
  pub contents : view c.0 ≡ inserted t.max_size f (view t)
  pub within : c.0.current_size ≤ t.max_size
  pub same_max : c.0.max_size ≡ t.max_size

roomy-IsInserted :
    (name value : Bytes) (r s t : Table)
    → leb (length name + length value + entry_overhead) t.max_size ≡ true
    → IsRoomy s t (length name + length value + entry_overhead)
    → IsSame r s
    → r.entry_count < r.entry_capacity
    → r.data_used + (length name + length value) ≤ r.data_capacity
    → IsInserted (store name value r, none) t (record { name = name; value = value })
roomy-IsInserted name value r s t small roomy same free fits =
    let h : HasRoom r name value = record {
      table = same.table;
      free = free;
      fits = fits;
      sizes = omega (arith, roomy.fits, same.same_size, same.same_max, roomy.same_max);
    } in
    let fits_in : ltb t.max_size (length name + length value + entry_overhead) ≡ false =
      ground arith in
    record {
      succeeds = refl;
      table = store-IsTable r name value h;
      contents = rw fits_in (
          store-view r name value h
          ∙ ap (◌∷◌ (record { name = name; value = value })) (same.same_view ∙ roomy.kept));
      within = unfold store in omega (arith, h.sizes, same.same_max, roomy.same_max);
      same_max = unfold store in same.same_max ∙ roomy.same_max;
    }

-- The steps of `Insert` behind the tests of the sizes.
steps-IsInserted :
    (name value : Bytes) (s t : Table)
    → leb (length name + length value + entry_overhead) t.max_size ≡ true
    → IsRoomy s t (length name + length value + entry_overhead)
    → IsInserted
        (and_then
          (make_data_room true (length name + length value) s)
          λ roomy. and_then (make_entry_room true roomy) λ ready. (store name value ready, none))
        t
        (record { name = name; value = value })
steps-IsInserted name value s t small roomy =
    let needed = length name + length value in
    let data_room =
      make_data_room-HasDataRoom needed s roomy.table (omega (arith, roomy.fits, roomy.same_max)) in
    let r = (make_data_room true needed s).0 in
    let entry_room = make_entry_room-HasEntryRoom r data_room.same.table in
    let after = (make_entry_room true r).0 in
    let same : IsSame after s = then-IsSame after r s entry_room.same data_room.same in
    rw
      (
        and_then_success (make_data_room true needed s)
            (λ c. and_then (make_entry_room true c) λ ready. (store name value ready, none))
            data_room.succeeds,
        and_then_success (make_entry_room true r) (λ ready. (store name value ready, none))
            entry_room.succeeds,
      )
      (roomy-IsInserted name value after s t small roomy same entry_room.free
        (omega (arith, data_room.fits, entry_room.same_used, entry_room.same_capacity)))

cleared-IsTable :
    (t : Table)
    → IsTable t
    → IsTable (record t { entry_count = 0; entry_head = 0; data_used = 0; current_size = 0 })
cleared-IsTable t v = record {
  laid = record {
    ring = v.laid.ring;
    head_in = v.laid.ring;
    count_in = omega arith;
    used_in = omega arith;
    joined = λ i h. absurd (omega arith);
    ordered = λ i j h k. absurd (omega arith);
    below = λ i h. absurd (omega arith);
  };
  sized = refl;
  small = v.small;
  size_small = omega arith;
  data_small = v.data_small;
}

cleared-IsInserted :
    (t : Table) (f : Field)
    → IsTable t
    → ltb t.max_size (field_size f) ≡ true
    → IsInserted
        (record t { entry_count = 0; entry_head = 0; data_used = 0; current_size = 0 }, none)
        t
        f
cleared-IsInserted t f v large = record {
  succeeds = refl;
  table = cleared-IsTable t v;
  contents = rw large refl;
  within = omega arith;
  same_max = refl;
}

pub insert-IsInserted :
    (name value : Bytes) (t : Table)
    → IsTable t
    → length name + length value < 2 ^ 61
    → IsInserted (insert true true name value t) t (record { name = name; value = value })
unfolding insert
insert-IsInserted name value t v bound =
    let needed = length name + length value in
    let fits_in : (ltb (max_size_t - length value) (length name)
          || ltb (max_size_t - entry_overhead) needed)
        ≡ false =
      ground arith in
    elim (Bool-cases (ltb t.max_size (needed + entry_overhead))) [
      | inl large ↦
          rw (fits_in, large) (cleared-IsInserted t (record { name = name; value = value }) v large)
      | inr small ↦
          rw (fits_in, small)
            (steps-IsInserted name value (evict_while t.entry_count (needed + entry_overhead) t) t
              (ground arith)
              (evict_while-IsRoomy t.entry_count (needed + entry_overhead) t v refl (ground arith)))
    ]

-- `Lookup` is the list's.
nth_field-view_from :
    (t : Table) (i a n : ℕ)
    → nth_field i (view_from t a n) ≡ (if leb n i then none else some (field_at t (a + i)))
nth_field-view_from t i a zero = ground arith
nth_field-view_from t zero a (suc n) = let e : a + 0 ≡ a = omega arith in rw e (ground arith)
nth_field-view_from t (suc i) a (suc n) =
    let e : a + 1 + i ≡ a + suc i = omega arith in
    let rest = rw e at (nth_field-view_from t i (a + 1) n) in ground (arith, rest)

pub lookup-nth_field : (index : ℕ) (t : Table) → lookup index t ≡ nth_field index (view t)
unfolding lookup field_at entry_at
lookup-nth_field index t =
    let e : 0 + index ≡ index = omega arith in
    sym (rw e at (nth_field-view_from t index 0 t.entry_count))
