-- ===== src/Http2/Hpack/Table/Spec.antt =====
-- The dynamic table of RFC 7541, section 4, as a list of fields with the newest in front: what
-- HpackDynamicTable of src/KernelHttpLib/http2/Hpack.cpp promises.
use win_kernel_http.Common.{
  ℕ, zero, suc, List, [], ◌∷◌, ◌++◌, ◌+◌, ◌-◌, ◌≤◌, ◌<◌, ◌≡◌, refl, ltb, leb, if◌then◌else◌, length,
  Option, none, some, arith,
}
use win_kernel_http.Http2.Hpack.Table.{Field, entry_overhead}

-- A field counts 32 bytes more than its name and value.
abbrev pub field_size : Field → ℕ
field_size f = length (Field.name f) + length (Field.value f) + entry_overhead

abbrev pub total_size : List Field → ℕ
total_size [] = 0
total_size (f ∷ fs) = field_size f + total_size fs

-- The newest fields that fit the limit together: the oldest ones are evicted.
abbrev pub keep : ℕ → List Field → List Field
keep limit [] = []
keep limit (f ∷ fs) =
    let rest = keep (limit - field_size f) fs in if leb (field_size f) limit then f ∷ rest else []

-- A new field in front of what fits beside it; one that does not fit at all empties the table.
abbrev pub inserted : ℕ → Field → List Field → List Field
inserted max_size f fs =
    if ltb max_size (field_size f) then [] else f ∷ keep (max_size - field_size f) fs

abbrev pub nth_field : ℕ → List Field → Option Field
nth_field i [] = none
nth_field zero (f ∷ fs) = some f
nth_field (suc i) (f ∷ fs) = nth_field i fs

pub keep_all : (limit : ℕ) (fs : List Field) → total_size fs ≤ limit → keep limit fs ≡ fs
keep_all limit [] h = refl
keep_all limit (f ∷ fs) h = ground (arith, keep_all (limit - field_size f) fs)

pub keep-append :
    (limit : ℕ) (fs : List Field) (f : Field)
    → limit < total_size (fs ++ (f ∷ []))
    → keep limit (fs ++ (f ∷ [])) ≡ keep limit fs
keep-append limit [] f h = ground arith
keep-append limit (g ∷ fs) f h = ground (arith, keep-append (limit - field_size g) fs f)

pub total_size-keep : (limit : ℕ) (fs : List Field) → total_size (keep limit fs) ≤ limit
total_size-keep limit [] = omega arith
total_size-keep limit (f ∷ fs) = ground (arith, total_size-keep (limit - field_size f) fs)

pub total_size-append :
    (fs : List Field) (f : Field) → total_size (fs ++ (f ∷ [])) ≡ total_size fs + field_size f
total_size-append [] f = omega arith
total_size-append (g ∷ fs) f = omega (arith, total_size-append fs f)
