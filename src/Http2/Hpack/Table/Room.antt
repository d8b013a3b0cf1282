-- ===== src/Http2/Hpack/Table/Room.antt =====
-- The tests of Insert in src/KernelHttpLib/http2/Hpack.cpp that make room in the data buffer.
use win_kernel_http.Common.{
  ℕ, zero, suc, ◌+◌, ◌*◌, ◌^◌, ◌≤◌, ◌<◌, ◌≡◌, refl, sym, ap, ◌∙◌, true, false, ltb, leb,
  if◌then◌else◌, arith, Bool-cases, inl, inr, none,
}
use win_kernel_http.Http2.Hpack.Table.{
  Table, entry_overhead, compact_data, Change, data_capacity_limit, grow_data, make_data_room,
  grown_capacity, read,
}
use win_kernel_http.Http2.Hpack.Table.Memory.{read_ext}
use win_kernel_http.Http2.Hpack.Table.Spec.{field_size, total_size, total_size-append}
use win_kernel_http.Http2.Hpack.Table.View.{
  entry_at, field_at, view, view_from, view_last, view_same, IsLaid, IsTable, field_size-field_of,
}
use win_kernel_http.Http2.Hpack.Table.Compact.{compact_data-IsCompacted, bytes_of}
use win_kernel_http.Http2.Hpack.Table.Evict.{compacted-IsTable}

-- The same fields, sizes and limit.
pub record IsSame (s t : Table) : Type 0 where
  pub table : IsTable s
  pub same_view : view s ≡ view t
  pub same_count : s.entry_count ≡ t.entry_count
  pub same_size : s.current_size ≡ t.current_size
  pub same_max : s.max_size ≡ t.max_size

last_of :
    (t : Table) (n : ℕ)
    → field_size (field_at t n)
      ≡ (entry_at t n).name_length + (entry_at t n).value_length + entry_overhead
unfolding field_at
last_of t n = field_size-field_of t.data_ (entry_at t n)

bytes_of-total_size :
    (t : Table) (n : ℕ) → bytes_of t n + entry_overhead * n ≡ total_size (view_from t 0 n)
unfolding bytes_of
bytes_of-total_size t zero = refl
bytes_of-total_size t (suc n) = omega (
  arith,
  bytes_of-total_size t n,
  ap total_size (view_last t n),
  total_size-append (view_from t 0 n) (field_at t n),
  last_of t n,
)

-- What a larger data buffer holds.
abbrev enlarged : Table → ℕ → Table
enlarged t capacity = record t {
  data_ = (λ i. if ltb i t.data_used then t.data_ i else 0);
  data_capacity = capacity;
}

read-enlarged :
    (t : Table) (capacity offset n : ℕ)
    → offset + n ≤ t.data_used
    → read (enlarged t capacity).data_ offset n ≡ read t.data_ offset n
read-enlarged t capacity offset n h =
    read_ext n (enlarged t capacity).data_ t.data_ offset offset λ i l. ground arith

enlarged_fields :
    (t : Table) (capacity i : ℕ)
    → IsLaid t
    → i < t.entry_count
    → field_at (enlarged t capacity) i ≡ field_at t i
unfolding field_at entry_at
enlarged_fields t capacity i l h =
    let e = entry_at t i in
    let a = l.below i h in
    let b = l.joined i h in
    ground (
      arith,
      read-enlarged t capacity e.name_offset e.name_length (omega arith),
      read-enlarged t capacity e.value_offset e.value_length (omega arith),
    )

view-enlarged : (t : Table) (capacity : ℕ) → IsLaid t → view (enlarged t capacity) ≡ view t
view-enlarged t capacity l =
    view_same t.entry_count (enlarged t capacity) t λ i h. enlarged_fields t capacity i l h

enlarged-IsSame :
    (t : Table) (capacity : ℕ)
    → IsTable t
    → t.data_used ≤ capacity
    → capacity < 2 ^ 63
    → IsSame (enlarged t capacity) t
unfolding entry_at
enlarged-IsSame t capacity v u c = record {
  table = record {
    laid = record {
      ring = v.laid.ring;
      head_in = v.laid.head_in;
      count_in = v.laid.count_in;
      used_in = u;
      joined = v.laid.joined;
      ordered = v.laid.ordered;
      below = v.laid.below;
    };
    sized = v.sized ∙ ap total_size (sym (view-enlarged t capacity v.laid));
    small = v.small;
    size_small = v.size_small;
    data_small = c;
  };
  same_view = view-enlarged t capacity v.laid;
  same_count = refl;
  same_size = refl;
  same_max = refl;
}

pub unchanged-IsSame : (t : Table) → IsTable t → IsSame t t
unchanged-IsSame t v = record {
  table = v;
  same_view = refl;
  same_count = refl;
  same_size = refl;
  same_max = refl;
}

pub then-IsSame : (r s t : Table) → IsSame r s → IsSame s t → IsSame r t
then-IsSame r s t a b = record {
  table = a.table;
  same_view = a.same_view ∙ b.same_view;
  same_count = a.same_count ∙ b.same_count;
  same_size = a.same_size ∙ b.same_size;
  same_max = a.same_max ∙ b.same_max;
}

compacted-IsSame : (t : Table) → IsTable t → IsSame (compact_data t) t
compacted-IsSame t v =
    let (compacted, used) = compact_data-IsCompacted t v.laid in
    let (table, same) = compacted-IsTable (compact_data t) t v compacted in
    record {
      table = table;
      same_view = same;
      same_count = compacted.moved.same_count;
      same_size = compacted.moved.same_size;
      same_max = compacted.moved.same_max;
    }

-- A step that succeeds, keeps the fields, and leaves room in the data buffer.
pub record HasDataRoom (c : Change) (t : Table) (needed : ℕ) : Type 0 where
  pub succeeds : c.1 ≡ none
  pub same : IsSame c.0 t
  pub fits : c.0.data_used + needed ≤ c.0.data_capacity

pub data_limit : (n : ℕ) → n < 2 ^ 61 → data_capacity_limit n ≡ n * 2 + 1024
unfolding data_capacity_limit
data_limit n h = ground arith

grow_data-HasDataRoom :
    (needed : ℕ) (t : Table)
    → IsTable t
    → t.data_used + needed ≤ t.max_size
    → HasDataRoom (grow_data true needed t) t needed
unfolding grow_data
grow_data-HasDataRoom needed t v h =
    let limit = data_limit t.max_size v.small in
    elim (Bool-cases (leb (t.data_used + needed) t.data_capacity)) [
      | inl fits ↦
          rw fits (record { succeeds = refl; same = unchanged-IsSame t v; fits = ground arith })
      | inr full ↦
          let enough : ltb (grown_capacity needed t) (t.data_used + needed) ≡ false =
            rw limit (ground (arith, v)) in
          let bounded : grown_capacity needed t < 2 ^ 63 = rw limit (ground (arith, v)) in
          rw (full, enough)
            (record {
              succeeds = refl;
              same = enlarged-IsSame t (grown_capacity needed t) v (ground arith) bounded;
              fits = ground arith;
            })
    ]

-- The bytes in use behind a compaction are counted in the size.
compacted_used : (t : Table) → IsTable t → (compact_data t).data_used ≤ t.current_size
compacted_used t v =
    let (compacted, used) = compact_data-IsCompacted t v.laid in
    omega (arith, used, bytes_of-total_size t t.entry_count, v.sized)

grown-HasDataRoom :
    (c : Change) (s t : Table) (needed : ℕ)
    → IsSame s t
    → HasDataRoom c s needed
    → HasDataRoom c t needed
grown-HasDataRoom c s t needed same room = record {
  succeeds = room.succeeds;
  same = then-IsSame c.0 s t room.same same;
  fits = room.fits;
}

grow_fitting :
    (needed : ℕ) (t : Table)
    → IsTable t
    → t.data_used + needed ≤ t.data_capacity
    → HasDataRoom (grow_data true needed t) t needed
unfolding grow_data
grow_fitting needed t v h =
    let fits : leb (t.data_used + needed) t.data_capacity ≡ true = ground arith in
    rw fits (record { succeeds = refl; same = unchanged-IsSame t v; fits = h })

pub make_data_room-HasDataRoom :
    (needed : ℕ) (t : Table)
    → IsTable t
    → t.current_size + needed ≤ t.max_size
    → HasDataRoom (make_data_room true needed t) t needed
unfolding make_data_room
make_data_room-HasDataRoom needed t v h =
    let limit = data_limit t.max_size v.small in
    let allowed : ltb (data_capacity_limit t.max_size) needed ≡ false = rw limit (ground arith) in
    elim (Bool-cases (ltb t.data_capacity (t.data_used + needed))) [
      | inl full ↦
          let same = compacted-IsSame t v in
          let used = compacted_used t v in
          rw (allowed, full)
            (grown-HasDataRoom (grow_data true needed (compact_data t)) (compact_data t) t needed
              same
              (grow_data-HasDataRoom needed (compact_data t) same.table
                (omega (arith, used, same.same_max))))
      | inr fits ↦ rw (allowed, fits) (grow_fitting needed t v (ground arith))
    ]
