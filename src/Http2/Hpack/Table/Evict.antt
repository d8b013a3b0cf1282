-- ===== src/Http2/Hpack/Table/Evict.antt =====
-- Evict and UpdateMaxSize of src/KernelHttpLib/http2/Hpack.cpp against the list of fields.
use win_kernel_http.Common.{
  ℕ, zero, suc, [], ◌∷◌, ◌++◌, ◌+◌, ◌-◌, ◌^◌, ◌==◌, ◌≤◌, ◌<◌, ◌≡◌, refl, sym, ap, ◌∙◌, ltb,
  if◌then◌else◌, arith, Bool-cases, inl, inr, ◌&&◌,
}
use win_kernel_http.Common.Buffer.{low_bits}
use win_kernel_http.Http2.Hpack.Table.{
  Table, entry_overhead, evict, evict_while, compact_data, update_max_size,
}
use win_kernel_http.Http2.Hpack.Table.Spec.{
  field_size, total_size, keep, keep_all, keep-append, total_size-append,
}
use win_kernel_http.Http2.Hpack.Table.View.{
  entry_at, field_at, view, view_from, view_last, view_same, IsLaid, IsTable, field_size-field_of,
}
use win_kernel_http.Http2.Hpack.Table.Compact.{IsCompacted, compact_data-IsCompacted}

-- What `Evict` leaves alone, and what it takes off.
pub record IsEvicted (s t : Table) (n : ℕ) : Type 0 where
  pub table : IsTable s
  pub count : s.entry_count ≡ n
  pub shorter : view t ≡ view s ++ (field_at t n ∷ [])
  pub smaller : s.current_size + field_size (field_at t n) ≡ t.current_size
  pub same_max : s.max_size ≡ t.max_size

last_size :
    (t : Table) (n : ℕ)
    → (entry_at t n).name_length + (entry_at t n).value_length + entry_overhead
      ≡ field_size (field_at t n)
unfolding field_at
last_size t n = sym (field_size-field_of t.data_ (entry_at t n))

-- The table without the entry at `n`, the oldest.
abbrev shrunk : Table → ℕ → Table
shrunk t n = record t {
  current_size = t.current_size - field_size (field_at t n);
  entry_count = n;
  entry_head = (if n == 0 then 0 else t.entry_head);
  data_used = (if n == 0 then 0 else t.data_used);
}

evict_lem : (t : Table) (n : ℕ) → t.entry_count ≡ suc n → evict t ≡ shrunk t n
unfolding evict entry_at
evict_lem t n c =
    let e : t.entry_count - 1 ≡ n = omega arith in rw (e, c) (ground (arith, last_size t n))

shrunk_fields : (t : Table) (n i : ℕ) → i < n → field_at (shrunk t n) i ≡ field_at t i
unfolding field_at entry_at
shrunk_fields t n i h = ground arith

shrunk_entries : (t : Table) (n i : ℕ) → i < n → entry_at (shrunk t n) i ≡ entry_at t i
unfolding entry_at
shrunk_entries t n i h = ground arith

shrunk-IsLaid : (t : Table) (n : ℕ) → IsLaid t → n < t.entry_count → IsLaid (shrunk t n)
shrunk-IsLaid t n l c = record {
  ring = l.ring;
  head_in = ground (arith, l);
  count_in = omega (arith, l);
  used_in = ground (arith, l);
  joined = λ i h. rw (shrunk_entries t n i h) (l.joined i (omega arith));
  ordered = λ i j h k.
      rw (shrunk_entries t n i (omega arith), shrunk_entries t n j k)
        (l.ordered i j h (omega arith));
  below = λ i h. rw (shrunk_entries t n i h) (ground (arith, l.below i (omega arith)));
}

shrunk-view :
    (t : Table) (n : ℕ) → t.entry_count ≡ suc n → view t ≡ view (shrunk t n) ++ (field_at t n ∷ [])
shrunk-view t n c =
    ap (view_from t 0) c
    ∙ view_last t n
    ∙ ap (λ fs. fs ++ (field_at t n ∷ [])) (sym (view_same n (shrunk t n) t (shrunk_fields t n)))

evict-IsEvicted : (t : Table) (n : ℕ) → IsTable t → t.entry_count ≡ suc n → IsEvicted (evict t) t n
evict-IsEvicted t n v c =
    let whole =
      ap total_size (shrunk-view t n c) ∙ total_size-append (view (shrunk t n)) (field_at t n) in
    rw (evict_lem t n c) (record {
      table = record {
        laid = shrunk-IsLaid t n v.laid (omega arith);
        sized = omega (arith, whole, v.sized);
        small = v.small;
        size_small = omega (arith, v.size_small);
        data_small = v.data_small;
      };
      count = refl;
      shorter = shrunk-view t n c;
      smaller = omega (arith, whole, v.sized);
      same_max = refl;
    })

-- The loop ends on the fields that fit beside `extra` more bytes.
pub record IsRoomy (s t : Table) (extra : ℕ) : Type 0 where
  pub table : IsTable s
  pub kept : view s ≡ keep (t.max_size - extra) (view t)
  pub fits : s.current_size + extra ≤ t.max_size
  pub same_max : s.max_size ≡ t.max_size

fits-IsRoomy :
    (t : Table) (extra : ℕ) → IsTable t → t.current_size + extra ≤ t.max_size → IsRoomy t t extra
fits-IsRoomy t extra v h = record {
  table = v;
  kept = sym (keep_all (t.max_size - extra) (view t) (omega (arith, v.sized)));
  fits = h;
  same_max = refl;
}

-- A round that evicts changes nothing in the end: the oldest field does not fit anyway.
evicted-IsRoomy :
    (s t : Table) (n extra : ℕ)
    → IsTable t
    → t.max_size < t.current_size + extra
    → extra ≤ t.max_size
    → IsEvicted (evict t) t n
    → IsRoomy s (evict t) extra
    → IsRoomy s t extra
evicted-IsRoomy s t n extra v over x e rest =
    let whole = ap total_size e.shorter in
    let last =
      keep-append (t.max_size - extra) (view (evict t)) (field_at t n)
        (omega (arith, whole, v.sized)) in
    record {
      table = rest.table;
      kept =
          rest.kept
          ∙ ap (λ m. keep (m - extra) (view (evict t))) e.same_max
          ∙ sym last
          ∙ ap (keep (t.max_size - extra)) (sym e.shorter);
      fits = omega (arith, rest.fits, e.same_max);
      same_max = rest.same_max ∙ e.same_max;
    }

pub evict_while-IsRoomy :
    (fuel extra : ℕ) (t : Table)
    → IsTable t
    → t.entry_count ≡ fuel
    → extra ≤ t.max_size
    → IsRoomy (evict_while fuel extra t) t extra
unfolding evict_while
evict_while-IsRoomy zero extra t v c x =
    fits-IsRoomy t extra v (omega (arith, v.sized, ap (λ n. total_size (view_from t 0 n)) c))
evict_while-IsRoomy (suc n) extra t v c x =
    let e = evict-IsEvicted t n v c in
    let rest = evict_while-IsRoomy n extra (evict t) e.table e.count (omega (arith, e.same_max)) in
    elim (Bool-cases
      (ltb t.max_size (low_bits (t.current_size + extra) 64) && ltb 0 t.entry_count)) [
        | inl over ↦ rw over (evicted-IsRoomy _ t n extra v (ground (arith, v)) x e rest)
        | inr fits ↦ rw fits (fits-IsRoomy t extra v (ground (arith, v)))
      ]

-- `UpdateMaxSize`: the newest fields that fit the new size stay.
pub record IsUpdated (s t : Table) (max_size : ℕ) : Type 0 where
  pub table : IsTable s
  pub kept : view s ≡ keep max_size (view t)
  pub within : s.current_size ≤ max_size
  pub new_max : s.max_size ≡ max_size

-- What is compacted is the same table for its readers.
pub compacted-IsTable : (s t : Table) → IsTable t → IsCompacted s t → IsTable s × (view s ≡ view t)
compacted-IsTable s t v c =
    let same : view s ≡ view t =
      ap (view_from s 0) c.moved.same_count ∙ view_same t.entry_count s t c.fields in
    (
      record {
        laid = c.laid;
        sized = omega (arith, c.moved.same_size, v.sized, ap total_size same);
        small = omega (arith, c.moved.same_max, v.small);
        size_small = omega (arith, c.moved.same_size, v.size_small);
        data_small = omega (arith, c.moved.same_capacity, v.data_small);
      },
      same,
    )

resized-view : (t : Table) (max_size : ℕ) → view (record t { max_size = max_size }) ≡ view t
unfolding field_at entry_at
resized-view t max_size = view_same t.entry_count (record t { max_size = max_size }) t λ i h. refl

resized-IsTable :
    (t : Table) (max_size : ℕ)
    → IsTable t
    → max_size < 2 ^ 61
    → IsTable (record t { max_size = max_size })
unfolding entry_at
resized-IsTable t max_size v m = record {
  laid = record {
    ring = v.laid.ring;
    head_in = v.laid.head_in;
    count_in = v.laid.count_in;
    used_in = v.laid.used_in;
    joined = v.laid.joined;
    ordered = v.laid.ordered;
    below = v.laid.below;
  };
  sized = v.sized ∙ ap total_size (sym (resized-view t max_size));
  small = m;
  size_small = v.size_small;
  data_small = v.data_small;
}

pub update_max_size-IsUpdated :
    (t : Table) (max_size : ℕ)
    → IsTable t
    → max_size < 2 ^ 61
    → IsUpdated (update_max_size max_size t) t max_size
unfolding update_max_size
update_max_size-IsUpdated t max_size v m =
    let resized = record t { max_size = max_size } in
    let roomy =
      evict_while-IsRoomy t.entry_count 0 resized (resized-IsTable t max_size v m) refl
        (omega arith) in
    let small = evict_while t.entry_count 0 resized in
    let (compacted, used) = compact_data-IsCompacted small roomy.table.laid in
    let (table, same) = compacted-IsTable (compact_data small) small roomy.table compacted in
    let whole : max_size - 0 ≡ max_size = omega arith in
    record {
      table = table;
      kept =
          same
          ∙ roomy.kept
          ∙ ap (λ n. keep n (view resized)) whole
          ∙ ap (keep max_size) (resized-view t max_size);
      within = omega (arith, compacted.moved.same_size, roomy.fits);
      new_max = compacted.moved.same_max ∙ roomy.same_max;
    }
