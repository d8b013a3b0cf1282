-- ===== src/Http2/Hpack/Table/Compact.antt =====
-- CompactData of src/KernelHttpLib/http2/Hpack.cpp: the fields stay, and their bytes move to the
-- front of the data buffer.
use win_kernel_http.Common.{
  ℕ, zero, suc, ◌+◌, ◌==◌, ◌<◌, ◌≡◌, refl, ◌∙◌, arith, Bool-cases, inl, inr,
}
use win_kernel_http.Http2.Hpack.Table.{Table, compact_step, compact_loop, compact_data}
use win_kernel_http.Http2.Hpack.Table.View.{entry_at, field_at, IsLaid}
use win_kernel_http.Http2.Hpack.Table.Move.{
  IsCompacting, total, step_field, step_other, step-IsCompacting,
}

-- Nothing but the data, the entries and `data_used` changes.
pub record IsMoved (s t : Table) : Type 0 where
  pub same_count : s.entry_count ≡ t.entry_count
  pub same_capacity : s.data_capacity ≡ t.data_capacity
  pub same_size : s.current_size ≡ t.current_size
  pub same_max : s.max_size ≡ t.max_size
  pub same_entries : s.entry_capacity ≡ t.entry_capacity

-- The bytes of the `n` newest entries.
unfoldable pub bytes_of : Table → ℕ → ℕ
bytes_of t zero = 0
bytes_of t (suc n) = bytes_of t n + ((entry_at t n).name_length + (entry_at t n).value_length)

bytes_of_ext :
    (s t : Table) (n : ℕ)
    → ((i : ℕ) → i < n → entry_at s i ≡ entry_at t i)
    → bytes_of s n ≡ bytes_of t n
unfolding bytes_of
bytes_of_ext s t zero h = refl
bytes_of_ext s t (suc n) h =
    ground (arith, h n (omega arith), bytes_of_ext s t n λ i l. h i (omega arith))

pub record IsCompacted (s t : Table) : Type 0 where
  pub laid : IsLaid s
  pub moved : IsMoved s t
  pub fields : (i : ℕ) → i < t.entry_count → field_at s i ≡ field_at t i

compact_loop-IsCompacted :
    (r w : ℕ) (t : Table)
    → IsCompacting t r w
    → IsCompacted (compact_loop r w t) t × ((compact_loop r w t).data_used ≡ w + bytes_of t r)
unfolding compact_loop entry_at field_at compact_step bytes_of
compact_loop-IsCompacted zero w t c = (
  record {
    laid = record {
      ring = c.laid.ring;
      head_in = c.laid.head_in;
      count_in = c.laid.count_in;
      used_in = omega (arith, c.write_in, c.laid.used_in);
      joined = c.laid.joined;
      ordered = c.laid.ordered;
      below = λ i h. c.done i (omega arith) h;
    };
    moved = record {
      same_count = refl;
      same_capacity = refl;
      same_size = refl;
      same_max = refl;
      same_entries = refl;
    };
    fields = λ i h. refl;
  },
  omega arith,
)
compact_loop-IsCompacted (suc r) w t c =
    let (rest, used) =
      compact_loop-IsCompacted r (w + total t r w c) (compact_step r w t)
        (step-IsCompacting t r w c) in
    let same =
      bytes_of_ext (compact_step r w t) t r
        λ i l. step_other t r w c i (omega (arith, c.rounds)) (omega arith) in
    (
      record {
        laid = rest.laid;
        moved = record {
          same_count = rest.moved.same_count;
          same_capacity = rest.moved.same_capacity;
          same_size = rest.moved.same_size;
          same_max = rest.moved.same_max;
          same_entries = rest.moved.same_entries;
        };
        fields = λ i h. rest.fields i h ∙ step_field t r w c i h;
      },
      omega (arith, used, same),
    )

empty-IsCompacted :
    (t : Table)
    → IsLaid t
    → t.entry_count ≡ 0
    → IsCompacted (record t { data_used = 0; entry_head = 0 }) t × (0 ≡ bytes_of t t.entry_count)
empty-IsCompacted t l z = (
  record {
    laid = record {
      ring = l.ring;
      head_in = l.ring;
      count_in = l.count_in;
      used_in = omega arith;
      joined = λ i h. absurd (omega arith);
      ordered = λ i j h k. absurd (omega arith);
      below = λ i h. absurd (omega arith);
    };
    moved = record {
      same_count = refl;
      same_capacity = refl;
      same_size = refl;
      same_max = refl;
      same_entries = refl;
    };
    fields = λ i h. absurd (omega arith);
  },
  rw z (unfold bytes_of in refl),
)

pub compact_data-IsCompacted :
    (t : Table)
    → IsLaid t
    → IsCompacted (compact_data t) t × ((compact_data t).data_used ≡ bytes_of t t.entry_count)
unfolding compact_data
compact_data-IsCompacted t l = elim (Bool-cases (t.entry_count == 0)) [
  | inl none ↦ rw none (empty-IsCompacted t l (ground arith))
  | inr some ↦
      let (compacted, used) = compact_loop-IsCompacted t.entry_count 0 t start in
      rw some (compacted, omega (arith, used))
]
  where
    start : IsCompacting t t.entry_count 0
    start = record {
      laid = l;
      rounds = omega arith;
      write_in = omega arith;
      done = λ i h k. absurd (omega arith);
      todo = λ i h. omega arith;
    }
