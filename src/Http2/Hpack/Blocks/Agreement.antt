-- ===== src/Http2/Hpack/Blocks/Agreement.antt =====
-- The dynamic tables of HpackEncoder and HpackDecoder of src/KernelHttpLib/http2/Hpack.cpp side by
-- side: the encoder stores a name as its caller spells it, the decoder as the wire gave it.
use win_kernel_http.Common.{
  ℕ, zero, suc, ◌+◌, ◌-◌, ◌*◌, ◌^◌, ◌≤◌, ◌<◌, ◌≡◌, refl, sym, ap, ◌∙◌, true, leb, inl, inr,
  Bool-cases, some, none, length, arith,
}
use win_kernel_http.Http2.Hpack.Table.{Table, Field, insert, update_max_size}
use win_kernel_http.Http2.Hpack.Table.Spec.{inserted, total_size, nth_field}
use win_kernel_http.Http2.Hpack.Table.View.{view, view_from, IsTable}
use win_kernel_http.Http2.Hpack.Table.Insert.{insert-IsInserted, lookup-nth_field}
use win_kernel_http.Http2.Hpack.Table.Evict.{update_max_size-IsUpdated}
use win_kernel_http.Http2.Hpack.StaticTable.{static_table_size}
use win_kernel_http.Http2.Hpack.Decoder.{table_entry}
use win_kernel_http.Http2.Hpack.Blocks.Fold.{
  fold_name, fold_field, fold_fields, length-fold_name, inserted-same, keep-same, nth_field-same,
}

-- Both tables hold the same fields up to the case of names, under the same limit.
pub record Agree (e d : Table) : Type 0 where
  pub sender : IsTable e
  pub receiver : IsTable d
  pub limit : e.max_size ≡ d.max_size
  pub small : e.max_size < 2 ^ 32
  pub within : e.current_size ≤ e.max_size
  pub same : fold_fields (view e) ≡ fold_fields (view d)

total_size-view_from : (t : Table) (i n : ℕ) → 32 * n ≤ total_size (view_from t i n)
total_size-view_from t i zero = omega arith
total_size-view_from t i (suc n) = omega (arith, total_size-view_from t (i + 1) n)

-- An index of the encoder's tables fits 32 bits.
pub entry_count_small : (e d : Table) → Agree e d → static_table_size + e.entry_count < 2 ^ 32
entry_count_small e d h =
    omega (arith, total_size-view_from e 0 e.entry_count, h.sender.sized, h.within, h.small)

-- An index names the same field on both sides.
pub table_entry-same :
    (e d : Table) (index : ℕ) (f : Field)
    → Agree e d
    → table_entry e index ≡ some f
    → (g : Field) × (table_entry d index ≡ some g) × (fold_field g ≡ fold_field f)
unfolding table_entry
table_entry-same e d index f h n = elim (Bool-cases (leb index static_table_size)) [
  | inl known ↦ (f, rw known (rw known at n), refl)
  | inr dynamic ↦
      let i : ℕ = index - static_table_size - 1 in
      let there : nth_field i (view e) ≡ some f = sym (lookup-nth_field i e) ∙ (rw dynamic at n) in
      let (g, at, same) = nth_field-same i (view e) (view d) f h.same there in
      (g, rw dynamic (lookup-nth_field i d ∙ at), same)
]

pub insert-Agree :
    (e d : Table) (f g : Field)
    → Agree e d
    → fold_field g ≡ fold_field f
    → length f.name + length f.value < 2 ^ 61
    → ((insert true true f.name f.value e).1 ≡ none)
      × ((insert true true g.name g.value d).1 ≡ none)
      × Agree (insert true true f.name f.value e).0 (insert true true g.name g.value d).0
insert-Agree e d f g h same bound =
    let names : length (fold_name g.name) ≡ length (fold_name f.name) =
      ap (λ (k : Field). length k.name) same in
    let values : length g.value ≡ length f.value = ap (λ (k : Field). length k.value) same in
    let sent = insert-IsInserted f.name f.value e h.sender bound in
    let received =
      insert-IsInserted g.name g.value d h.receiver
        (omega (arith, length-fold_name f.name, length-fold_name g.name)) in
    (
      sent.succeeds,
      received.succeeds,
      record {
        sender = sent.table;
        receiver = received.table;
        limit = sent.same_max ∙ h.limit ∙ sym received.same_max;
        small = omega (arith, sent.same_max, h.small);
        within = omega (arith, sent.within, sent.same_max);
        same =
            ap fold_fields sent.contents
            ∙ inserted-same e.max_size f g (view e) (view d) (sym same) h.same
            ∙ ap (λ (n : ℕ). fold_fields (inserted n g (view d))) h.limit
            ∙ ap fold_fields (sym received.contents);
      },
    )

-- A new limit on both sides.
pub update_max_size-Agree :
    (e d : Table) (max_size : ℕ)
    → Agree e d
    → max_size < 2 ^ 32
    → Agree (update_max_size max_size e) (update_max_size max_size d)
update_max_size-Agree e d max_size h small =
    let sent = update_max_size-IsUpdated e max_size h.sender (omega arith) in
    let received = update_max_size-IsUpdated d max_size h.receiver (omega arith) in
    record {
      sender = sent.table;
      receiver = received.table;
      limit = sent.new_max ∙ sym received.new_max;
      small = omega (arith, sent.new_max);
      within = omega (arith, sent.within, sent.new_max);
      same =
          ap fold_fields sent.kept
          ∙ keep-same max_size (view e) (view d) h.same
          ∙ ap fold_fields (sym received.kept);
    }
