-- ===== src/Http2/Hpack/Table/Entries.antt =====
-- The test of Insert in src/KernelHttpLib/http2/Hpack.cpp that makes room for an entry.
use win_kernel_http.Common.{
  ℕ, ◌+◌, ◌*◌, ◌%◌, ◌==◌, ◌<◌, ◌≡◌, refl, sym, ap, ◌∙◌, true, false, ltb, if◌then◌else◌, arith,
  Bool-cases, inl, inr, none,
}
use native.Mathlib.Nat.{mod-eq_of_lt}
use win_kernel_http.Http2.Hpack.Table.{Table, slot, Change, make_entry_room, field_of, no_entry}
use win_kernel_http.Http2.Hpack.Table.Spec.{total_size}
use win_kernel_http.Http2.Hpack.Table.View.{entry_at, field_at, view_same, IsLaid, IsTable}
use win_kernel_http.Http2.Hpack.Table.Room.{IsSame, unchanged-IsSame}

-- A step that succeeds, keeps the fields and the data buffer, and leaves room for an entry.
pub record HasEntryRoom (c : Change) (t : Table) : Type 0 where
  pub succeeds : c.1 ≡ none
  pub same : IsSame c.0 t
  pub same_used : c.0.data_used ≡ t.data_used
  pub same_capacity : c.0.data_capacity ≡ t.data_capacity
  pub free : c.0.entry_count < c.0.entry_capacity

-- What a larger entry array holds.
abbrev unwound : Table → Table
unwound t = record t {
  entries = (λ i. if ltb i t.entry_count then t.entries (slot t i) else no_entry);
  entry_capacity = t.entry_capacity * 2;
  entry_head = 0;
}

unwound_entries :
    (t : Table) (i : ℕ) → IsLaid t → i < t.entry_count → entry_at (unwound t) i ≡ entry_at t i
unfolding entry_at
unwound_entries t i l h =
    let e : (0 + i) % (t.entry_capacity * 2) ≡ i =
      omega (arith, mod-eq_of_lt {n = 0 + i} {m = t.entry_capacity * 2} (omega (arith, l))) in
    rw e (ground arith)

unwound_fields :
    (t : Table) (i : ℕ) → IsLaid t → i < t.entry_count → field_at (unwound t) i ≡ field_at t i
unfolding field_at
unwound_fields t i l h = ap (field_of t.data_) (unwound_entries t i l h)

unwound-IsLaid : (t : Table) → IsLaid t → IsLaid (unwound t)
unwound-IsLaid t l = record {
  ring = omega (arith, l);
  head_in = omega (arith, l);
  count_in = omega (arith, l);
  used_in = l.used_in;
  joined = λ i h. rw (unwound_entries t i l h) (l.joined i h);
  ordered = λ i j h k.
      rw (unwound_entries t i l (omega arith), unwound_entries t j l k) (l.ordered i j h k);
  below = λ i h. rw (unwound_entries t i l h) (l.below i h);
}

unwound-IsSame : (t : Table) → IsTable t → IsSame (unwound t) t
unwound-IsSame t v =
    let same = view_same t.entry_count (unwound t) t λ i h. unwound_fields t i v.laid h in
    record {
      table = record {
        laid = unwound-IsLaid t v.laid;
        sized = v.sized ∙ ap total_size (sym same);
        small = v.small;
        size_small = v.size_small;
        data_small = v.data_small;
      };
      same_view = same;
      same_count = refl;
      same_size = refl;
      same_max = refl;
    }

pub make_entry_room-HasEntryRoom : (t : Table) → IsTable t → HasEntryRoom (make_entry_room true t) t
unfolding make_entry_room
make_entry_room-HasEntryRoom t v = elim (Bool-cases (ltb t.entry_count t.entry_capacity)) [
  | inl free ↦ rw free (record {
    succeeds = refl;
    same = unchanged-IsSame t v;
    same_used = refl;
    same_capacity = refl;
    free = ground arith;
  })
  | inr full ↦
      let grows : (t.entry_capacity * 2 == 0) ≡ false = ground (arith, v.laid) in
      rw (full, grows)
        (record {
          succeeds = refl;
          same = unwound-IsSame t v;
          same_used = refl;
          same_capacity = refl;
          free = omega (arith, v.laid);
        })
]
