-- ===== src/Http2/Hpack/Table/Run.antt =====
-- HpackDynamicTable of src/KernelHttpLib/http2/Hpack.cpp, from Initialize on, against the dynamic
-- table of RFC 7541 as a list.
use win_kernel_http.Common.{
  ℕ, List, [], ◌∷◌, ◌+◌, ◌*◌, ◌^◌, ◌≤◌, ◌<◌, ◌≡◌, refl, ap, ◌∙◌, true, length, arith, none,
}
use win_kernel_http.Common.Buffer.{Bytes}
use win_kernel_http.Common.Status.{ok}
use win_kernel_http.Http2.Hpack.Table.{
  Table, Field, Change, and_then, insert, lookup, update_max_size, initialize_table, reset_table,
  no_entry,
}
use win_kernel_http.Http2.Hpack.Table.Spec.{keep, inserted, nth_field}
use win_kernel_http.Http2.Hpack.Table.View.{view, IsTable}
use win_kernel_http.Http2.Hpack.Table.Evict.{update_max_size-IsUpdated}
use win_kernel_http.Http2.Hpack.Table.Room.{data_limit}
use win_kernel_http.Http2.Hpack.Table.Insert.{insert-IsInserted, and_then_success, lookup-nth_field}

-- The calls that change a table.
pub data TableOp : Type 0 where
  inserting : Bytes → Bytes → TableOp
  resizing : ℕ → TableOp

-- The calls one after another, each with its memory, up to the first that fails.
pub table_op : TableOp → Table → Change
unfolding insert update_max_size
table_op (inserting name value) t = insert true true name value t
table_op (resizing max_size) t = (update_max_size max_size t, none)

pub run_table : List TableOp → Table → Change
unfolding table_op
run_table [] t = (t, none)
run_table (op ∷ ops) t = and_then (table_op op t) λ next. run_table ops next

-- The same calls on the list.
pub record Model : Type 0 where
  pub limit : ℕ
  pub fields : List Field

abbrev pub model_op : TableOp → Model → Model
model_op (inserting name value) m = record m {
  fields = inserted m.limit (record { name = name; value = value }) m.fields;
}
model_op (resizing max_size) m = record { limit = max_size; fields = keep max_size m.fields }

abbrev pub run_model : List TableOp → Model → Model
run_model [] m = m
run_model (op ∷ ops) m = run_model ops (model_op op m)

-- Lengths and limits far below 2^64.
abbrev pub IsBounded : List TableOp → Type 0
IsBounded [] = Unit {0}
IsBounded (inserting name value ∷ ops) = (length name + length value < 2 ^ 61) × IsBounded ops
IsBounded (resizing max_size ∷ ops) = (max_size < 2 ^ 61) × IsBounded ops

-- A table that holds what the list holds.
pub record IsModel (t : Table) (m : Model) : Type 0 where
  pub table : IsTable t
  pub limit : t.max_size ≡ m.limit
  pub contents : view t ≡ m.fields
  pub within : t.current_size ≤ t.max_size

insert-IsModel :
    (name value : Bytes) (t : Table) (m : Model)
    → length name + length value < 2 ^ 61
    → IsModel t m
    → IsModel (insert true true name value t).0 (model_op (inserting name value) m)
insert-IsModel name value t m bound h =
    let step = insert-IsInserted name value t h.table bound in
    record {
      table = step.table;
      limit = step.same_max ∙ h.limit;
      contents =
          step.contents
          ∙ ap (λ n. inserted n (record { name = name; value = value }) (view t)) h.limit
          ∙ ap (inserted m.limit (record { name = name; value = value })) h.contents;
      within = omega (arith, step.within, step.same_max);
    }

resize-IsModel :
    (max_size : ℕ) (t : Table) (m : Model)
    → max_size < 2 ^ 61
    → IsModel t m
    → IsModel (update_max_size max_size t) (model_op (resizing max_size) m)
resize-IsModel max_size t m bound h =
    let step = update_max_size-IsUpdated t max_size h.table bound in
    record {
      table = step.table;
      limit = step.new_max;
      contents = step.kept ∙ ap (keep max_size) h.contents;
      within = omega (arith, step.within, step.new_max);
    }

run_table-IsModel :
    (ops : List TableOp) (t : Table) (m : Model)
    → IsBounded ops
    → IsModel t m
    → ((run_table ops t).1 ≡ none) × IsModel (run_table ops t).0 (run_model ops m)
unfolding run_table table_op
run_table-IsModel [] t m b h = (refl, h)
run_table-IsModel (inserting name value ∷ ops) t m b h =
    let step = insert-IsInserted name value t h.table b.0 in
    let next = (insert true true name value t).0 in
    let rest =
      run_table-IsModel ops next (model_op (inserting name value) m) b.1
        (insert-IsModel name value t m b.0 h) in
    rw (and_then_success (insert true true name value t) (run_table ops) step.succeeds) rest
run_table-IsModel (resizing max_size ∷ ops) t m b h =
    run_table-IsModel ops (update_max_size max_size t) (model_op (resizing max_size) m) b.1
      (resize-IsModel max_size t m b.0 h)

-- What `Initialize` sets up.
abbrev pub fresh_table : ℕ → Table
fresh_table max_size = record {
  data_ = λ i. 0;
  data_capacity = max_size * 2 + 1024;
  data_used = 0;
  entries = λ i. no_entry;
  entry_capacity = 128;
  entry_count = 0;
  entry_head = 0;
  current_size = 0;
  max_size = max_size;
}

pub initialize_table_fresh :
    (max_size : ℕ) (old : Table)
    → 0 < max_size
    → max_size < 2 ^ 61
    → initialize_table true true max_size old ≡ ok (fresh_table max_size)
unfolding initialize_table reset_table
initialize_table_fresh max_size old p h = rw (data_limit max_size h) (ground arith)

pub fresh-IsModel :
    (max_size : ℕ)
    → max_size < 2 ^ 61
    → IsModel (fresh_table max_size) (record { limit = max_size; fields = [] })
fresh-IsModel max_size h = record {
  table = record {
    laid = record {
      ring = omega arith;
      head_in = omega arith;
      count_in = omega arith;
      used_in = omega arith;
      joined = λ i h. absurd (omega arith);
      ordered = λ i j h k. absurd (omega arith);
      below = λ i h. absurd (omega arith);
    };
    sized = refl;
    small = h;
    size_small = omega arith;
    data_small = omega arith;
  };
  limit = refl;
  contents = refl;
  within = omega arith;
}

-- For a limit between 1 and 2^61 - 1 and any list of insertions with fewer than 2^61 bytes and
-- limits below 2^61: `Initialize` succeeds where memory is there, and then every call on the ring
-- does; the size stays within the limit, and `Lookup` at every index gives what the list of fields
-- has there on which the same calls were done, with a new field in front, and behind it the newest
-- of the old ones as far as they fit.
pub run_table-model :
    (ops : List TableOp) (max_size : ℕ) (old : Table) (index : ℕ)
    → 0 < max_size
    → max_size < 2 ^ 61
    → IsBounded ops
    → (t : Table) × (initialize_table true true max_size old ≡ ok t)
      × ((run_table ops t).1 ≡ none)
      × ((run_table ops t).0.current_size ≤ (run_table ops t).0.max_size)
      × (lookup index (run_table ops t).0
          ≡ nth_field index (run_model ops (record { limit = max_size; fields = [] })).fields)
run_table-model ops max_size old index p h b =
    let (succeeds, model) =
      run_table-IsModel ops (fresh_table max_size) (record { limit = max_size; fields = [] }) b
        (fresh-IsModel max_size h) in
    (
      fresh_table max_size,
      initialize_table_fresh max_size old p h,
      succeeds,
      model.within,
      lookup-nth_field index (run_table ops (fresh_table max_size)).0
          ∙ ap (nth_field index) model.contents,
    )
