-- ===== src/Http2/Hpack/Blocks/Matching.antt =====
-- HpackEncoder::FindMatch of src/KernelHttpLib/http2/Hpack.cpp: what an index that it returns names.
use win_kernel_http.Common.{
  ℕ, zero, suc, List, [], ◌∷◌, ◌++◌, ◌+◌, ◌-◌, ◌≤◌, ◌<◌, ◌≡◌, refl, sym, ap, ◌∙◌, inl, inr, ◌⊎◌,
  ◌==◌, Bool-cases, Option, some, none, length, arith, length-append,
}
use mathlib.Core.List.{append_assoc}
use win_kernel_http.Http2.Hpack.Table.{Table, Field, lookup}
use win_kernel_http.Http2.Hpack.Table.Spec.{nth_field}
use win_kernel_http.Http2.Hpack.StaticTable.{static_table, static_table_size}
use win_kernel_http.Http2.Hpack.Names.{name_equals, value_equals}
use win_kernel_http.Http2.Hpack.Decoder.{table_entry}
use win_kernel_http.Http2.Hpack.Encoder.{
  Match, full, partial, match_entry, match_static, match_dynamic, find_match,
}
use win_kernel_http.Http2.Hpack.Blocks.Fold.{fold_name, name_equals-fold, value_equals-eq}

-- An index whose entry has the name of a header, up to case.
pub record NamesField (t : Table) (header : Field) (index : ℕ) : Type 0 where
  pub entry : Field
  pub positive : 0 < index
  pub within : index ≤ static_table_size + t.entry_count
  pub names : table_entry t index ≡ some entry
  pub same_name : fold_name entry.name ≡ fold_name header.name

-- A full match names the value as well; a name that was not found is index 0.
abbrev pub IsMatch : Table → Field → Match → Type 0
IsMatch t header (full index) = (n : NamesField t header index) × (n.entry.value ≡ header.value)
IsMatch t header (partial index) = (index ≡ 0) ⊎ NamesField t header index

nth_field-append :
    (front rest : List Field) (entry : Field)
    → nth_field (length front) (front ++ (entry ∷ rest)) ≡ some entry
nth_field-append [] rest entry = refl
nth_field-append (f ∷ front) rest entry = nth_field-append front rest entry

length-static_table : length static_table ≡ static_table_size
unfolding static_table
length-static_table = refl

lookup-within : (i : ℕ) (t : Table) (f : Field) → lookup i t ≡ some f → i < t.entry_count
unfolding lookup
lookup-within i t f e = ground arith

module _ (t : Table) (header : Field) where
  continue-IsMatch :
      (m : Match) (next : ℕ → Match)
      → IsMatch t header m
      → ((n : ℕ) → IsMatch t header (partial n) → IsMatch t header (next n))
      → IsMatch t header (elim m [ full index ↦ full index | partial n ↦ next n ])
  continue-IsMatch (full index) next here behind = here
  continue-IsMatch (partial n) next here behind = behind n here

  table_entry-static :
      (i : ℕ) → i + 1 ≤ static_table_size → table_entry t (i + 1) ≡ nth_field i static_table
  unfolding table_entry
  table_entry-static i h =
      let back : i + 1 - 1 ≡ i = omega arith in
      ground (arith, ap (λ (j : ℕ). nth_field j static_table) back)

  table_entry-dynamic : (i : ℕ) → table_entry t (static_table_size + i + 1) ≡ lookup i t
  unfolding table_entry
  table_entry-dynamic i =
      let back : static_table_size + i + 1 - static_table_size - 1 ≡ i = omega arith in
      ground (arith, ap (λ (j : ℕ). lookup j t) back)

  match_entry-IsMatch :
      (entry : Field) (index name_match : ℕ)
      → 0 < index
      → index ≤ static_table_size + t.entry_count
      → table_entry t index ≡ some entry
      → IsMatch t header (partial name_match)
      → IsMatch t header (match_entry header entry index name_match)
  unfolding match_entry
  match_entry-IsMatch entry index name_match p w e before =
      elim (Bool-cases (name_equals header.name entry.name)) [
        | inr other ↦ rw other before
        | inl same ↦
            let named : NamesField t header index = record {
              entry = entry;
              positive = p;
              within = w;
              names = e;
              same_name = sym (name_equals-fold header.name entry.name same);
            } in
            elim (Bool-cases (value_equals header.value entry.value)) [
              | inl equal ↦
                  rw (same, equal) (named, sym (value_equals-eq header.value entry.value equal))
              | inr differs ↦ elim (Bool-cases (name_match == 0)) [
                | inl first ↦ rw (same, differs, first) (inr named)
                | inr later ↦ rw (same, differs, later) before
              ]
            ]
      ]

  static_at :
      (front rest : List Field) (entry : Field)
      → front ++ (entry ∷ rest) ≡ static_table
      → (length front + 1 ≤ static_table_size) × (table_entry t (length front + 1) ≡ some entry)
  static_at front rest entry e =
      let size : length front + 1 ≤ static_table_size =
        omega (arith, length-append front (entry ∷ rest), ap length e, length-static_table) in
      (
        size,
        table_entry-static (length front) size
            ∙ ap (nth_field (length front)) (sym e)
            ∙ nth_field-append front rest entry,
      )

  match_static-IsMatch :
      (front rest : List Field) (i name_match : ℕ)
      → i ≡ length front
      → front ++ rest ≡ static_table
      → IsMatch t header (partial name_match)
      → IsMatch t header (match_static header rest i name_match)
  unfolding match_static
  match_static-IsMatch front [] i name_match l e before = before
  match_static-IsMatch front (entry ∷ rest) i name_match l e before =
      let (size, at) = static_at front rest entry e in
      let here : IsMatch t header (match_entry header entry (i + 1) name_match) =
        match_entry-IsMatch entry (i + 1) name_match (omega arith) (omega arith)
          (ap (λ (j : ℕ). table_entry t (j + 1)) l ∙ at) before in
      continue-IsMatch (match_entry header entry (i + 1) name_match)
        (match_static header rest (i + 1)) here
        λ n behind.
          match_static-IsMatch (front ++ (entry ∷ [])) rest (i + 1) n
            (omega (arith, length-append front (entry ∷ [])))
            (append_assoc front (entry ∷ []) rest ∙ e) behind

  visit-IsMatch :
      (o : Option Field) (i name_match : ℕ) (next : ℕ → Match)
      → lookup i t ≡ o
      → IsMatch t header (partial name_match)
      → ((n : ℕ) → IsMatch t header (partial n) → IsMatch t header (next n))
      → IsMatch t header (elim o [
        | none ↦ next name_match
        | some entry ↦ elim (match_entry header entry (static_table_size + i + 1) name_match) [
          | full index ↦ full index
          | partial n ↦ next n
        ]
      ])
  visit-IsMatch none i name_match next e before behind = behind name_match before
  visit-IsMatch (some entry) i name_match next e before behind =
      let within = lookup-within i t entry e in
      let index : ℕ = static_table_size + i + 1 in
      continue-IsMatch (match_entry header entry index name_match) next
        (match_entry-IsMatch entry index name_match (omega arith) (omega arith)
          (table_entry-dynamic i ∙ e) before)
        behind

  match_dynamic-IsMatch :
      (left i name_match : ℕ)
      → IsMatch t header (partial name_match)
      → IsMatch t header (match_dynamic header t left i name_match)
  unfolding match_dynamic
  match_dynamic-IsMatch zero i name_match before = before
  match_dynamic-IsMatch (suc left) i name_match before =
      visit-IsMatch (lookup i t) i name_match (match_dynamic header t left (i + 1)) refl before
        λ n behind. match_dynamic-IsMatch left (i + 1) n behind

  -- On any table and header, an index that FindMatch returns is positive and no larger than both
  -- tables together, and names an entry whose name equals the header's up to ASCII case, and whose
  -- value equals the header's where the match is a full one.
  pub find_match-IsMatch : IsMatch t header (find_match t header)
  unfolding find_match
  find_match-IsMatch =
      let first = match_static-IsMatch [] static_table 0 0 refl refl (inl refl) in
      continue-IsMatch (match_static header static_table 0 0)
        (match_dynamic header t t.entry_count 0) first
        λ n behind. match_dynamic-IsMatch t.entry_count 0 n behind
