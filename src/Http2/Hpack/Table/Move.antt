-- ===== src/Http2/Hpack/Table/Move.antt =====
-- One round of CompactData in src/KernelHttpLib/http2/Hpack.cpp.
use win_kernel_http.Common.{
  ℕ, suc, ◌+◌, ◌==◌, ◌≤◌, ◌<◌, ◌≡◌, ◌≢◌, true, if◌then◌else◌, arith, Bool-cases, ◌⊎◌, inl, inr,
}
use win_kernel_http.Http2.Hpack.Table.{Entry, Table, read, compact_step}
use win_kernel_http.Http2.Hpack.Table.Memory.{read_ext, mem_move_outside, mem_move_inside}
use win_kernel_http.Http2.Hpack.Table.View.{entry_at, field_at, end_of, IsLaid, slot_ne}

-- Half way through: the entries from `r` on stand below `w`, the others not below it.
pub record IsCompacting (t : Table) (r w : ℕ) : Type 0 where
  pub laid : IsLaid t
  pub rounds : r ≤ t.entry_count
  pub write_in : w ≤ t.data_used
  pub done : (i : ℕ) → r ≤ i → i < t.entry_count → end_of (entry_at t i) ≤ w
  pub todo : (i : ℕ) → i < r → w ≤ (entry_at t i).name_offset

abbrev moved : Entry → ℕ → Entry
moved e w = record e { name_offset = w; value_offset = w + e.name_length }

same_index : (i r : ℕ) → (i == r) ≡ true → i ≡ r
same_index i r h = ground arith

module _ (t : Table) (r w : ℕ) (c : IsCompacting t (suc r) w) where
  pub step_other :
      (i : ℕ) → i < t.entry_count → i ≢ r → entry_at (compact_step r w t) i ≡ entry_at t i
  unfolding entry_at compact_step
  step_other i h ne = ground (
    arith,
    c.laid,
    slot_ne t.entry_head i r t.entry_capacity c.laid.head_in (omega (arith, c.laid))
        (omega (arith, c.laid, c.rounds)) ne,
  )

  step_this : entry_at (compact_step r w t) r ≡ moved (entry_at t r) w
  unfolding entry_at compact_step
  step_this = ground arith

  abbrev pub total : ℕ
  total = (entry_at t r).name_length + (entry_at t r).value_length

  -- The bytes outside the ones that are written, and the ones that are.
  step_outside : (j : ℕ) → (j < w) ⊎ (w + total ≤ j) → (compact_step r w t).data_ j ≡ t.data_ j
  unfolding entry_at compact_step
  step_outside j h = ground (
    arith,
    mem_move_outside t.data_ w (entry_at t r).name_offset total j (c.todo r (omega arith)) h,
  )

  step_inside :
      (k : ℕ)
      → k < total
      → (compact_step r w t).data_ (w + k) ≡ t.data_ ((entry_at t r).name_offset + k)
  unfolding entry_at compact_step
  step_inside k h = ground (
    arith,
    mem_move_inside t.data_ w (entry_at t r).name_offset total k (c.todo r (omega arith)) h,
  )

  -- A region that the round does not touch is read as before.
  read_outside :
      (offset n : ℕ)
      → (offset + n ≤ w) ⊎ (w + total ≤ offset)
      → read (compact_step r w t).data_ offset n ≡ read t.data_ offset n
  read_outside offset n h =
      read_ext n (compact_step r w t).data_ t.data_ offset offset
        λ k l. step_outside (offset + k) (ground arith)

  -- The regions of the moved entry.
  read_inside :
      (a n : ℕ)
      → a + n ≤ total
      → read (compact_step r w t).data_ (w + a) n ≡ read t.data_ ((entry_at t r).name_offset + a) n
  read_inside a n h =
      read_ext n (compact_step r w t).data_ t.data_ (w + a) ((entry_at t r).name_offset + a) λ k l.
        let e : w + a + k ≡ w + (a + k) = omega arith in
        let e' : (entry_at t r).name_offset + a + k ≡ (entry_at t r).name_offset + (a + k) =
          omega arith in
        rw (e, e') (step_inside (a + k) (omega arith))

  moved_field : field_at (compact_step r w t) r ≡ field_at t r
  unfolding field_at
  moved_field =
      let e = entry_at t r in
      let joined = c.laid.joined r c.rounds in
      ground (
        arith,
        step_this,
        read_inside 0 e.name_length (omega arith),
        read_inside e.name_length e.value_length (omega arith),
      )

  pub step_field : (i : ℕ) → i < t.entry_count → field_at (compact_step r w t) i ≡ field_at t i
  unfolding field_at
  step_field i h = elim (Bool-cases (i == r)) [
    | inl same ↦ rw (same_index i r same) moved_field
    | inr other ↦
        let e = entry_at t i in
        let apart : (end_of e ≤ w) ⊎ (w + total ≤ e.name_offset) =
          ground (arith, c.laid.ordered i r, c.done i, c.todo r) in
        let joined = c.laid.joined i h in
        ground (
          arith,
          step_other i h (ground arith),
          read_outside e.name_offset e.name_length (ground arith),
          read_outside e.value_offset e.value_length (ground arith),
        )
  ]

  step_entry :
      (i : ℕ)
      → i < t.entry_count
      → entry_at (compact_step r w t) i ≡ (if i == r then moved (entry_at t r) w else entry_at t i)
  step_entry i h = elim (Bool-cases (i == r)) [
    | inl same ↦ rw (same_index i r same) (ground (arith, step_this))
    | inr other ↦ ground (arith, step_other i h (ground arith))
  ]

  step_joined :
      (i : ℕ)
      → i < t.entry_count
      → (entry_at (compact_step r w t) i).value_offset
        ≡ (entry_at (compact_step r w t) i).name_offset
          + (entry_at (compact_step r w t) i).name_length
  step_joined i h = ground (arith, step_entry i h, c.laid.joined i h)

  step_ordered :
      (i j : ℕ)
      → i < j
      → j < t.entry_count
      → end_of (entry_at (compact_step r w t) j) ≤ (entry_at (compact_step r w t) i).name_offset
  step_ordered i j h k = ground (
    arith,
    step_entry i (omega arith),
    step_entry j k,
    c.laid.ordered i j h k,
    c.laid.ordered i r,
    c.done j,
    c.todo r,
    c.laid.below r,
    c.rounds,
  )

  step_below : (i : ℕ) → i < t.entry_count → end_of (entry_at (compact_step r w t) i) ≤ t.data_used
  step_below i h =
      ground (arith, step_entry i h, c.laid.below i h, c.laid.below r, c.todo r, c.rounds)

  step_done :
      (i : ℕ) → r ≤ i → i < t.entry_count → end_of (entry_at (compact_step r w t) i) ≤ w + total
  step_done i h k = ground (arith, step_entry i k, c.done i)

  step_todo : (i : ℕ) → i < r → w + total ≤ (entry_at (compact_step r w t) i).name_offset
  step_todo i h =
      ground
        (arith, step_entry i (omega (arith, c.rounds)), c.laid.ordered i r h c.rounds, c.todo r)

  pub step-IsCompacting : IsCompacting (compact_step r w t) r (w + total)
  unfolding compact_step
  step-IsCompacting = record {
    laid = record {
      ring = c.laid.ring;
      head_in = c.laid.head_in;
      count_in = c.laid.count_in;
      used_in = c.laid.used_in;
      joined = step_joined;
      ordered = step_ordered;
      below = step_below;
    };
    rounds = omega (arith, c.rounds);
    write_in = omega (arith, c.laid.below r c.rounds, c.todo r (omega arith));
    done = step_done;
    todo = step_todo;
  }
