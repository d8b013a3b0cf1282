-- ===== src/Http2/Hpack/Blocks/Bounds.antt =====
-- HpackDecoder::Decode of src/KernelHttpLib/http2/Hpack.cpp on any block: the limits of its caller
-- hold, and the loop ends at the end of the block.
use win_kernel_http.Common.{ℕ, List, [], ◌∷◌, ◌+◌, ◌*◌, ◌≤◌, ◌≡◌, refl, ap, Bool, length, arith}
use win_kernel_http.Common.Buffer.{Bytes}
use win_kernel_http.Common.Status.{Result, ok, err}
use win_kernel_http.Http2.Hpack.Table.{Table, Field, max_size_t}
use win_kernel_http.Http2.Hpack.Blocks.Delivery.{header_list_size_of}
use win_kernel_http.Http2.Hpack.Decoder.{
  HpackDecoder, Progress, decode_rounds, start_of, finish_decode, decode,
}
use win_kernel_http.Http2.Hpack.Blocks.Limits.{Within, decode_rounds-IsEnd}

nothing_left : (xs : Bytes) → length xs ≡ 0 → xs ≡ []
nothing_left [] h = refl
nothing_left (x ∷ xs) h = absurd (omega arith)

start-Within :
    (memory : ℕ → Bool × Bool) (max_table_size header_capacity capacity limit : ℕ)
    (size_t : limit ≤ max_size_t) (block : Bytes)
    → Within memory max_table_size header_capacity capacity limit size_t (start_of block)
start-Within memory max_table_size header_capacity capacity limit size_t block = record {
  placed = omega arith;
  filled = refl;
  listed = refl;
  limited = omega arith;
  counted = omega arith;
}

-- Where the loop of Decode, given at least as many rounds as the block has bytes and a 64-bit limit
-- of the header list, ends without a failure, nothing of the block is left.
pub decode_rounds_end :
    (memory : ℕ → Bool × Bool) (max_table_size header_capacity capacity limit fuel : ℕ) (t : Table)
    (block : Bytes) (next : Table) (q : Progress)
    → limit ≤ max_size_t
    → length block ≤ fuel
    → decode_rounds memory max_table_size header_capacity capacity limit fuel t (start_of block)
      ≡ (next, ok q)
    → q.behind ≡ []
decode_rounds_end memory max_table_size header_capacity capacity limit fuel t block next q size_t
      fuelled e =
    let (_, left) =
      decode_rounds-IsEnd memory max_table_size header_capacity capacity limit size_t fuel t next
        (start_of block) q
        (start-Within memory max_table_size header_capacity capacity limit size_t block) fuelled
        e in
    nothing_left q.behind left

finish_decode-ok :
    (d : HpackDecoder) (r : Table × Result Progress) (headers : List Field) (used : ℕ)
    → (finish_decode d r).1 ≡ ok (headers, used)
    → (q : Progress) × (r ≡ (r.0, ok q)) × (q.headers ≡ headers) × (q.nv_offset ≡ used)
finish_decode-ok d (t, err status) headers used e = cc
finish_decode-ok d (t, ok q) headers used e = (q, refl, cc e, cc e)

-- Whatever the block, the decoder's state and the success of allocations: where Decode succeeds
-- with a 64-bit limit of the header list, the headers are no more than the array takes, the part of
-- the output buffer that is reported as used is no longer than the buffer and exactly as long as
-- the names and values together, and with 32 bytes for each header they add up to no more than the
-- limit.
pub decode_bounds :
    (memory : ℕ → Bool × Bool) (d : HpackDecoder) (block : Bytes)
    (header_capacity capacity limit : ℕ) (headers : List Field) (used : ℕ)
    → limit ≤ max_size_t
    → (decode memory d block header_capacity capacity limit).1 ≡ ok (headers, used)
    → (length headers ≤ header_capacity)
      × (used ≤ capacity)
      × (header_list_size_of headers ≡ used + 32 * length headers)
      × (header_list_size_of headers ≤ limit)
unfolding decode
decode_bounds memory d block header_capacity capacity limit headers used size_t e =
    let r =
      decode_rounds memory d.max_table_size header_capacity capacity limit (length block) d.table
        (start_of block) in
    let (q, rounds, hs, nv) = finish_decode-ok d r headers used e in
    let (h, _) =
      decode_rounds-IsEnd memory d.max_table_size header_capacity capacity limit size_t
        (length block) d.table r.0 (start_of block) q
        (start-Within memory d.max_table_size header_capacity capacity limit size_t block)
        (omega arith) rounds in
    (
      omega (arith, h.counted, ap (λ (fs : List Field). length fs) hs),
      omega (arith, h.placed),
      omega (arith, h.filled, ap header_list_size_of hs, ap (λ (fs : List Field). length fs) hs),
      omega (arith, h.listed, h.limited, ap header_list_size_of hs),
    )
