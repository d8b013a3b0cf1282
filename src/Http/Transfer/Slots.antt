-- ===== src/Http/Transfer/Slots.antt =====
-- The slots of HttpTransferCodingInfo, src/KernelHttpLib/http/HttpTransferCoding.cpp: at most four
-- codings, with at most one `chunked`.
use win_kernel_http.Common.{
  ℕ, zero, suc, ◌+◌, ◌≤◌, ◌<◌, ◌≡◌, refl, ap, ◌∙◌, false, ◌&&◌, if◌then◌else◌, arith, Bool-cases,
  inl, inr,
}
use win_kernel_http.Common.Status.{ok}
use win_kernel_http.Http.Transfer.{
  TransferCodingKind, TransferCodingInfo, is_chunked, has_chunked, get_transfer_coding,
  set_transfer_coding, append_transfer_coding,
}

-- How many of the codings below `n` are chunked.
abbrev pub chunked_count : TransferCodingInfo → ℕ → ℕ
chunked_count info zero = 0
chunked_count info (suc n) =
    chunked_count info n + (if is_chunked (get_transfer_coding info n) then 1 else 0)

pub record IsCodings (info : TransferCodingInfo) : Type 0 where
  pub few : info.coding_count ≤ 4
  pub chunked_once : chunked_count info info.coding_count ≤ 1

set-below :
    (info : TransferCodingInfo) (i n : ℕ) (coding : TransferCodingKind)
    → n < i
    → i < 4
    → get_transfer_coding (set_transfer_coding info i coding) n ≡ get_transfer_coding info n
set-below info i n coding h k = ground arith

set-at :
    (info : TransferCodingInfo) (i : ℕ) (coding : TransferCodingKind)
    → i < 4
    → get_transfer_coding (set_transfer_coding info i coding) i ≡ coding
set-at info i coding k = ground arith

-- The count reads the four slots alone.
chunked_count_ext :
    (left right : TransferCodingInfo) (n : ℕ)
    → ((i : ℕ) → i < n → get_transfer_coding left i ≡ get_transfer_coding right i)
    → chunked_count left n ≡ chunked_count right n
chunked_count_ext left right zero h = refl
chunked_count_ext left right (suc n) h =
    let rest = chunked_count_ext left right n λ i l. h i (omega arith) in
    rw (rest, h n (omega arith)) refl

has_chunked-count :
    (info : TransferCodingInfo) (n : ℕ) → has_chunked info n ≡ false → chunked_count info n ≡ 0
has_chunked-count info zero h = refl
has_chunked-count info (suc n) h = elim (Bool-cases (is_chunked (get_transfer_coding info n))) [
  | inl found ↦ absurd (ground (arith, rw found at h))
  | inr other ↦ rw other (ground (arith, has_chunked-count info n (rw other at h)))
]

abbrev pub appended : TransferCodingKind → TransferCodingInfo → TransferCodingInfo
appended coding info = record (set_transfer_coding info info.coding_count coding) {
  coding_count = info.coding_count + 1;
}

appended-slots :
    (coding : TransferCodingKind) (info : TransferCodingInfo) (i : ℕ)
    → get_transfer_coding (appended coding info) i
      ≡ get_transfer_coding (set_transfer_coding info info.coding_count coding) i
appended-slots coding info i = refl

appended-count :
    (coding : TransferCodingKind) (info : TransferCodingInfo)
    → info.coding_count < 4
    → chunked_count (appended coding info) (suc info.coding_count)
      ≡ chunked_count info info.coding_count + (if is_chunked coding then 1 else 0)
appended-count coding info h =
    let before =
      chunked_count_ext (appended coding info) info info.coding_count
        λ i l. set-below info info.coding_count i coding l h in
    rw (before, set-at info info.coding_count coding h) refl

pub append-IsCodings :
    (coding : TransferCodingKind) (info next : TransferCodingInfo)
    → append_transfer_coding coding info ≡ ok next
    → IsCodings info
    → IsCodings next
unfolding append_transfer_coding
append-IsCodings coding info next h v =
    let below : info.coding_count < 4 = ground arith in
    let single : (is_chunked coding && has_chunked info info.coding_count) ≡ false = ground arith in
    let same : ok (appended coding info) ≡ ok next = ground arith in
    let e : appended coding info ≡ next = cc same in
    let one : info.coding_count + 1 ≡ suc info.coding_count = omega arith in
    let count = ap (chunked_count (appended coding info)) one ∙ appended-count coding info below in
    rw (← e) (record {
      few = omega arith;
      chunked_once = elim (Bool-cases (has_chunked info info.coding_count)) [
        | inl found ↦ ground (arith, count, v.chunked_once)
        | inr other ↦ ground (arith, count, has_chunked-count info info.coding_count other)
      ];
    })
