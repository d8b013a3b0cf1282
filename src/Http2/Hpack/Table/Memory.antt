-- ===== src/Http2/Hpack/Table/Memory.antt =====
-- The copies within the data buffer of HpackDynamicTable, src/KernelHttpLib/http2/Hpack.cpp, as
-- what each byte is behind them.
use win_kernel_http.Common.{ℕ, zero, suc, [], ◌∷◌, ◌+◌, ◌≤◌, ◌<◌, ◌≡◌, refl, ap, length, arith, ◌⊎◌}
use win_kernel_http.Common.Buffer.{Bytes}
use win_kernel_http.Http2.Hpack.Table.{set_at, copy_up, mem_move, mem_copy, read}

-- Copying up leaves what is not written, and writes what was read, if the source lies behind.
copy_up_outside :
    (n : ℕ) (memory : ℕ → ℕ) (dst src j : ℕ)
    → (j < dst) ⊎ (dst + n ≤ j)
    → copy_up n memory dst src j ≡ memory j
unfolding copy_up
copy_up_outside zero memory dst src j h = refl
copy_up_outside (suc n) memory dst src j h =
    ground (arith, copy_up_outside n (set_at memory dst (memory src)) (dst + 1) (src + 1) j)

copy_up_inside :
    (n : ℕ) (memory : ℕ → ℕ) (dst src i : ℕ)
    → dst ≤ src
    → i < n
    → copy_up n memory dst src (dst + i) ≡ memory (src + i)
unfolding copy_up
copy_up_inside zero memory dst src i h l = absurd (omega arith)
copy_up_inside (suc n) memory dst src zero h l =
    ground (arith, copy_up_outside n (set_at memory dst (memory src)) (dst + 1) (src + 1) dst)
copy_up_inside (suc n) memory dst src (suc i) h l =
    ground (arith, copy_up_inside n (set_at memory dst (memory src)) (dst + 1) (src + 1) i)

-- `MemMove` towards the front.
pub mem_move_outside :
    (memory : ℕ → ℕ) (dst src len j : ℕ)
    → dst ≤ src
    → (j < dst) ⊎ (dst + len ≤ j)
    → mem_move memory dst src len j ≡ memory j
unfolding mem_move
mem_move_outside memory dst src len j h o = ground (arith, copy_up_outside len memory dst src j o)

pub mem_move_inside :
    (memory : ℕ → ℕ) (dst src len i : ℕ)
    → dst ≤ src
    → i < len
    → mem_move memory dst src len (dst + i) ≡ memory (src + i)
unfolding mem_move
mem_move_inside memory dst src len i h l = ground (arith, copy_up_inside len memory dst src i h l)

pub mem_copy_outside :
    (memory : ℕ → ℕ) (dst : ℕ) (bs : Bytes) (j : ℕ)
    → (j < dst) ⊎ (dst + length bs ≤ j)
    → mem_copy memory dst bs j ≡ memory j
unfolding mem_copy
mem_copy_outside memory dst [] j h = refl
mem_copy_outside memory dst (b ∷ bs) j h =
    ground (arith, mem_copy_outside (set_at memory dst b) (dst + 1) bs j)

-- Two memories that agree on a range are read alike there.
pub read_ext :
    (n : ℕ) (left right : ℕ → ℕ) (a b : ℕ)
    → ((i : ℕ) → i < n → left (a + i) ≡ right (b + i))
    → read left a n ≡ read right b n
unfolding read
read_ext zero left right a b h = refl
read_ext (suc n) left right a b h =
    let rest =
      read_ext n left right (a + 1) (b + 1) λ i l. ground (arith, h (suc i) (omega arith)) in
    ground (arith, h 0 (omega arith), rest)

-- What was copied in is read back.
pub read-mem_copy :
    (memory : ℕ → ℕ) (dst : ℕ) (bs : Bytes) → read (mem_copy memory dst bs) dst (length bs) ≡ bs
unfolding read mem_copy
read-mem_copy memory dst [] = refl
read-mem_copy memory dst (b ∷ bs) = ground (
  arith,
  mem_copy_outside (set_at memory dst b) (dst + 1) bs dst,
  read-mem_copy (set_at memory dst b) (dst + 1) bs,
)

pub length-read : (memory : ℕ → ℕ) (offset n : ℕ) → length (read memory offset n) ≡ n
unfolding read
length-read memory offset zero = refl
length-read memory offset (suc n) = ap suc (length-read memory (offset + 1) n)
