-- ===== src/Http2/Hpack/Table/Examples.antt =====
-- Runs of the dynamic table.
use win_kernel_http.Common.{List, [], ◌∷◌, ◌≤◌, ◌≡◌, arith, true, none, some}
use win_kernel_http.Common.Status.{ok, insufficient_resources}
use win_kernel_http.Http2.Hpack.Table.{
  Table, insert, update_max_size, lookup, initialize_table, no_entry,
}
use win_kernel_http.Http2.Hpack.Table.Spec.{nth_field}
use win_kernel_http.Http2.Hpack.Table.Zero.{insert-empty_table}
use win_kernel_http.Http2.Hpack.Table.Run.{
  TableOp, inserting, resizing, IsBounded, run_table, run_model, run_table-model,
}

abbrev blank : Table
blank = record {
  data_ = λ i. 0;
  data_capacity = 0;
  data_used = 0;
  entries = λ i. no_entry;
  entry_capacity = 0;
  entry_count = 0;
  entry_head = 0;
  current_size = 0;
  max_size = 0;
}

-- Three fields of 34 bytes in a table of 80, then a smaller table.
abbrev calls : List TableOp
calls =
    inserting (97 ∷ []) (1 ∷ [])
    ∷ inserting (98 ∷ []) (2 ∷ [])
    ∷ inserting (99 ∷ []) (3 ∷ [])
    ∷ resizing 40
    ∷ []

calls-IsBounded : IsBounded calls
calls-IsBounded = (omega arith, (omega arith, (omega arith, (omega arith, tt))))

run_table-model_example :
    (t : Table) × (initialize_table true true 80 blank ≡ ok t)
    × ((run_table calls t).1 ≡ none)
    × ((run_table calls t).0.current_size ≤ (run_table calls t).0.max_size)
    × (lookup 0 (run_table calls t).0
        ≡ nth_field 0 (run_model calls (record { limit = 80; fields = [] })).fields)
run_table-model_example =
    run_table-model calls 80 blank 0 (omega arith) (omega arith) calls-IsBounded

insert-empty_table_example :
    (t : Table) × (initialize_table true true 0 blank ≡ ok t)
    × ((insert true true (97 ∷ []) (1 ∷ []) (update_max_size 4096 t)).1
        ≡ some insufficient_resources)
insert-empty_table_example =
    insert-empty_table true true (97 ∷ []) (1 ∷ []) 4096 blank (omega arith) (omega arith)
