-- ===== src/Http2/Hpack/Table/View.antt =====
-- The fields that the ring of HpackDynamicTable, src/KernelHttpLib/http2/Hpack.cpp, holds, and what
-- keeps its positions and the regions of its data buffer apart.
use win_kernel_http.Common.{
  ℕ, zero, suc, List, [], ◌∷◌, ◌++◌, ◌+◌, ◌-◌, ◌%◌, ◌^◌, ◌==◌, ◌≤◌, ◌<◌, ◌≡◌, ◌≢◌, refl, ap, ltb,
  if◌then◌else◌, length, arith, Bool-cases, inl, inr,
}
use native.Mathlib.Nat.{mod-eq_of_lt, mod-eq-sub-mod}
use win_kernel_http.Http2.Hpack.Table.{Entry, Table, Field, field_of, slot, entry_overhead}
use win_kernel_http.Http2.Hpack.Table.Memory.{length-read}
use win_kernel_http.Http2.Hpack.Table.Spec.{field_size, total_size}

-- The entry at an index, and the field there.
unfoldable pub entry_at : Table → ℕ → Entry
entry_at t i = t.entries (slot t i)

unfoldable pub field_at : Table → ℕ → Field
unfolding entry_at
field_at t i = field_of t.data_ (entry_at t i)

-- `n` fields from index `i` on.
abbrev pub view_from : Table → ℕ → ℕ → List Field
view_from t i zero = []
view_from t i (suc n) = field_at t i ∷ view_from t (i + 1) n

abbrev pub view : Table → List Field
view t = view_from t 0 t.entry_count

-- Where the bytes of an entry end.
abbrev pub end_of : Entry → ℕ
end_of e = e.name_offset + e.name_length + e.value_length

-- The ring is in range, and the entries' bytes stand one behind the other, older ones in front.
pub record IsLaid (t : Table) : Type 0 where
  pub ring : 1 ≤ t.entry_capacity
  pub head_in : t.entry_head < t.entry_capacity
  pub count_in : t.entry_count ≤ t.entry_capacity
  pub used_in : t.data_used ≤ t.data_capacity
  pub joined :
      (i : ℕ)
      → i < t.entry_count
      → (entry_at t i).value_offset ≡ (entry_at t i).name_offset + (entry_at t i).name_length
  pub ordered :
      (i j : ℕ) → i < j → j < t.entry_count → end_of (entry_at t j) ≤ (entry_at t i).name_offset
  pub below : (i : ℕ) → i < t.entry_count → end_of (entry_at t i) ≤ t.data_used

-- Besides, the size is that of the fields, and the sizes are far below 2^64.
pub record IsTable (t : Table) : Type 0 where
  pub laid : IsLaid t
  pub sized : t.current_size ≡ total_size (view t)
  pub small : t.max_size < 2 ^ 61
  pub size_small : t.current_size < 2 ^ 61
  pub data_small : t.data_capacity < 2 ^ 63

-- A position wraps at most once.
slot_wrap :
    (head i capacity : ℕ)
    → head < capacity
    → i < capacity
    → (head + i) % capacity ≡ (if ltb (head + i) capacity then head + i else head + i - capacity)
slot_wrap head i capacity h k = elim (Bool-cases (ltb (head + i) capacity)) [
  | inl low ↦ ground (arith, mod-eq_of_lt {n = head + i} {m = capacity})
  | inr high ↦ ground (
    arith,
    mod-eq-sub-mod {n = head + i} {m = capacity} (ground arith),
    mod-eq_of_lt {n = head + i - capacity} {m = capacity} (omega arith),
  )
]

pub slot_ne :
    (head i j capacity : ℕ)
    → head < capacity
    → i < capacity
    → j < capacity
    → i ≢ j
    → (head + i) % capacity ≢ (head + j) % capacity
slot_ne head i j capacity h k l ne =
    ground (arith, slot_wrap head i capacity h k, slot_wrap head j capacity h l)

-- One position before the head comes the head.
pub slot_before :
    (head i capacity : ℕ)
    → head < capacity
    → suc i < capacity
    → ((if head == 0 then capacity - 1 else head - 1) + suc i) % capacity ≡ (head + i) % capacity
slot_before head i capacity h k =
    let before = (if head == 0 then capacity - 1 else head - 1) in
    ground (
      arith,
      slot_wrap before (suc i) capacity (ground arith) k,
      slot_wrap head i capacity h (omega arith),
    )

pub slot_zero : (head capacity : ℕ) → head < capacity → (head + 0) % capacity ≡ head
slot_zero head capacity h = ground (arith, slot_wrap head 0 capacity h (omega arith))

plus_zero : (a : ℕ) → a + 0 ≡ a
plus_zero a = omega arith

shift : (a i : ℕ) → a + 1 + i ≡ a + suc i
shift a i = omega arith

-- Two tables with the same fields at corresponding indices.
pub view_ext :
    (n : ℕ) (s t : Table) (a b : ℕ)
    → ((i : ℕ) → i < n → field_at s (a + i) ≡ field_at t (b + i))
    → view_from s a n ≡ view_from t b n
view_ext zero s t a b h = refl
view_ext (suc n) s t a b h =
    let first : field_at s a ≡ field_at t b =
      rw (← plus_zero a, ← plus_zero b) (h 0 (omega arith)) in
    let rest =
      view_ext n s t (a + 1) (b + 1) λ i l. rw (shift a i, shift b i) (h (suc i) (omega arith)) in
    cc (first, rest)

-- The same for the fields from the newest on.
pub view_same :
    (n : ℕ) (s t : Table)
    → ((i : ℕ) → i < n → field_at s i ≡ field_at t i)
    → view_from s 0 n ≡ view_from t 0 n
view_same n s t h = view_ext n s t 0 0 λ i l. let e : 0 + i ≡ i = omega arith in rw e (h i l)

view_from-append :
    (t : Table) (i n : ℕ) → view_from t i (suc n) ≡ view_from t i n ++ (field_at t (i + n) ∷ [])
view_from-append t i zero = rw plus_zero refl
view_from-append t i (suc n) =
    ap (◌∷◌ (field_at t i)) (rw (shift i n) at (view_from-append t (i + 1) n))

pub view_last : (t : Table) (n : ℕ) → view_from t 0 (suc n) ≡ view_from t 0 n ++ (field_at t n ∷ [])
view_last t n = let e : 0 + n ≡ n = omega arith in rw e at (view_from-append t 0 n)

pub length-view_from : (t : Table) (i n : ℕ) → length (view_from t i n) ≡ n
length-view_from t i zero = refl
length-view_from t i (suc n) = ap suc (length-view_from t (i + 1) n)

pub field_size-field_of :
    (memory : ℕ → ℕ) (e : Entry)
    → field_size (field_of memory e) ≡ e.name_length + e.value_length + entry_overhead
field_size-field_of memory e = omega (
  arith,
  length-read memory e.name_offset e.name_length,
  length-read memory e.value_offset e.value_length,
)
