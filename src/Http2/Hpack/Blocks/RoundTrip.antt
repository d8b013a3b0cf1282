-- ===== src/Http2/Hpack/Blocks/RoundTrip.antt =====
-- HpackEncoder::Encode and HpackDecoder::Decode of src/KernelHttpLib/http2/Hpack.cpp together, for
-- one block and for the blocks of a connection.
use win_kernel_http.Common.{
  ℕ, zero, suc, List, [], ◌++◌, ◌+◌, ◌-◌, ◌*◌, ◌%◌, ◌^◌, ◌≤◌, ◌<◌, ◌≡◌, refl, ap, ◌∙◌, true, false,
  All, leb, some, length, arith, length-append,
}
use win_kernel_http.Common.Buffer.{Bytes, byte_at}
use win_kernel_http.Common.Status.{Result, ok}
use native.Mathlib.Nat.{mod-eq_of_lt}
use win_kernel_http.Http2.Hpack.Integer.{encode_integer}
use win_kernel_http.Http2.Hpack.Table.{Table, Field, update_max_size}
use win_kernel_http.Http2.Hpack.Strings.RoundTrip.{ReadsBack, encode_integer-ReadsBack}
use win_kernel_http.Http2.Hpack.Decoder.{
  HpackDecoder, Representation, Progress, representation, decode_as, read_size_update, resize_table,
  and_continue, decode_rounds, start_of, decode,
}
use win_kernel_http.Http2.Hpack.Encoder.{
  HpackEncoder, encode_rounds, encode_size_update, encode_behind, encode,
}
use win_kernel_http.Http2.Hpack.Blocks.Fold.{fold_fields}
use win_kernel_http.Http2.Hpack.Blocks.Agreement.{Agree, update_max_size-Agree}
use win_kernel_http.Http2.Hpack.Blocks.Names.{IsHeader}
use win_kernel_http.Http2.Hpack.Blocks.Rounds.{always, representation_size_update}
use win_kernel_http.Http2.Hpack.Blocks.Delivery.{
  appended, texts_size, block_bound, header_list_size_of, rounds_step, IsDelivered,
  encode_rounds-Delivers,
}

-- An encoder and a decoder between two blocks: their tables agree, or the encoder has one new limit
-- to announce that the decoder admits.
pub data InStep (e : HpackEncoder) (d : HpackDecoder) : Type 0 where
  settled : e.table_size_update_pending ≡ false → Agree e.table d.table → InStep e d
  announcing :
      (before : Table)
      → e.table_size_update_pending ≡ true
      → Agree before d.table
      → e.table ≡ update_max_size e.pending_table_size before
      → e.pending_table_size ≤ d.max_table_size
      → e.pending_table_size < 2 ^ 32
      → InStep e d

-- What a block says of the two ends behind it.
pub record IsRead (e : HpackEncoder) (d : HpackDecoder) (headers : List Field)
    (r : HpackDecoder × Result (List Field × ℕ)) : Type 0 where
  pub read : List Field
  pub used : ℕ
  pub succeeds : r.1 ≡ ok (read, used)
  pub same : fold_fields read ≡ fold_fields headers
  pub in_buffer : used ≤ 2 * texts_size headers
  pub announced : e.table_size_update_pending ≡ false
  pub agree : Agree e.table r.0.table
  pub same_max : r.0.max_table_size ≡ d.max_table_size

module _ (header_capacity capacity limit : ℕ) (small_capacity : capacity < 2 ^ 62)
    (small_limit : limit < 2 ^ 64) where
  module _ (d : HpackDecoder) (e : HpackEncoder) (headers : List Field) (out : Bytes)
      (announced : e.table_size_update_pending ≡ false) where
    finished :
        (block : Bytes) (next : Table) (q : Progress) (read : List Field)
        → decode_rounds always d.max_table_size header_capacity capacity limit
            (length block)
            d.table
            (start_of block)
          ≡ (next, ok q)
        → q.headers ≡ read
        → q.nv_offset ≤ 2 * texts_size headers
        → fold_fields read ≡ fold_fields headers
        → Agree e.table next
        → IsRead e d headers (decode always d block header_capacity capacity limit)
    unfolding decode
    finished block next q read rounds hs used same agree = rw rounds (record {
      read = read;
      used = q.nv_offset;
      succeeds = ap (λ (fs : List Field). ok (fs, q.nv_offset)) hs;
      same = same;
      in_buffer = used;
      announced = announced;
      agree = agree;
      same_max = refl;
    })

    plain-IsRead :
        IsDelivered d.max_table_size header_capacity capacity limit e.table d.table headers out
        → 2 * texts_size headers ≤ capacity
        → header_list_size_of headers ≤ limit
        → length headers ≤ header_capacity
        → IsRead e d headers (decode always d out header_capacity capacity limit)
    plain-IsRead l room listed count =
        let (q, rounds, hs, used) =
          l.delivers (length out) (start_of out) refl (omega arith) (omega arith) (omega arith)
            (omega arith) in
        finished out l.next q l.read rounds hs (omega arith) l.same l.agree

    update_read :
        (n : ℕ) (size : Bytes)
        → ReadsBack n 0x20 5 size
        → n ≤ d.max_table_size
        → decode_as always d.max_table_size header_capacity capacity limit
            (representation (byte_at size 0))
            d.table
            (start_of (size ++ out))
          ≡ (update_max_size n d.table, ok (start_of out))
    unfolding decode_as read_size_update resize_table
    update_read n size back h =
        let admitted : leb n d.max_table_size ≡ true = ground arith in
        ap
          (λ (r : Representation).
            decode_as always d.max_table_size header_capacity capacity limit r d.table
              (start_of (size ++ out)))
          (representation_size_update (byte_at size 0) back.kept)
        ∙ rw (back.reads out, admitted) refl

    module _ (n : ℕ) (size : Bytes) (back : ReadsBack n 0x20 5 size) (h : n ≤ d.max_table_size)
        (l : IsDelivered d.max_table_size header_capacity capacity limit e.table
          (update_max_size n d.table)
          headers
          out)
        (room : 2 * texts_size headers ≤ capacity) (listed : header_list_size_of headers ≤ limit)
        (count : length headers ≤ header_capacity) where
      update_rounds :
          (fuel : ℕ)
          → length (size ++ out) ≤ fuel
          → (q : Progress) × (decode_rounds always d.max_table_size header_capacity capacity limit
                fuel d.table
                (start_of (size ++ out))
              ≡ (l.next, ok q))
            × (q.headers ≡ l.read)
            × (q.nv_offset ≤ 0 + 2 * texts_size headers)
      update_rounds zero fuelled = absurd (omega (arith, length-append size out, back.some_byte))
      update_rounds (suc fuel) fuelled =
          let (q, rounds, hs, used) =
            l.delivers fuel (start_of out) refl
              (omega (arith, length-append size out, back.some_byte)) (omega arith) (omega arith)
              (omega arith) in
          (
            q,
            rounds_step d.max_table_size header_capacity capacity limit fuel d.table
                  (start_of (size ++ out)) size out back.some_byte refl
                ∙ ap
                    (λ (r : Table × Result Progress).
                      and_continue r
                        (decode_rounds always d.max_table_size header_capacity capacity limit fuel))
                    (update_read n size back h)
                ∙ rounds,
            hs,
            used,
          )

      update-IsRead :
          IsRead e d headers (decode always d (size ++ out) header_capacity capacity limit)
      update-IsRead =
          let (q, rounds, hs, used) = update_rounds (length (size ++ out)) (omega arith) in
          finished (size ++ out) l.next q l.read rounds hs (omega arith) l.same l.agree

  module _ (e : HpackEncoder) (d : HpackDecoder) (headers : List Field) (space : ℕ)
      (fine : All IsHeader headers) (fits : 6 + block_bound headers ≤ space)
      (room : 2 * texts_size headers ≤ capacity) (listed : header_list_size_of headers ≤ limit)
      (count : length headers ≤ header_capacity) where
    -- What `Encode` wrote is read back.
    abbrev pub RoundTrips : HpackEncoder × Result Bytes → Type 0
    RoundTrips r =
        (block : Bytes) × (r.1 ≡ ok block)
        × IsRead r.0 d headers (decode always d block header_capacity capacity limit)

    -- The encoder behind the size update.
    abbrev quiet : HpackEncoder
    quiet = record e { table_size_update_pending = false }

    settled_block :
        Agree e.table d.table → RoundTrips (encode_behind always e headers space (ok []))
    unfolding encode_behind
    settled_block h =
        let (out, written, l) =
          encode_rounds-Delivers d.max_table_size header_capacity capacity limit small_capacity
            small_limit 0 e.table d.table headers (space - 0) h fine (omega arith) in
        let r = encode_rounds always 0 e.table headers (space - 0) in
        rw (appended [] out r written) (
          out,
          refl,
          plain-IsRead d (record quiet { table = r.0 }) headers out refl l room listed count,
        )

    announced_block :
        (n : ℕ) (size : Bytes)
        → ReadsBack n 0x20 5 size
        → n ≤ d.max_table_size
        → Agree e.table (update_max_size n d.table)
        → RoundTrips (encode_behind always e headers space (ok size))
    unfolding encode_behind
    announced_block n size back h agree =
        let (out, written, l) =
          encode_rounds-Delivers d.max_table_size header_capacity capacity limit small_capacity
            small_limit 0 e.table (update_max_size n d.table) headers (space - length size) agree
            fine (omega (arith, back.short)) in
        let r = encode_rounds always 0 e.table headers (space - length size) in
        rw (appended size out r written) (
          size ++ out,
          refl,
          update-IsRead d (record quiet { table = r.0 }) headers out refl n size back h l room
              listed count,
        )

    no_update : e.table_size_update_pending ≡ false → encode_size_update e space ≡ ok []
    unfolding encode_size_update
    no_update h = rw h refl

    one_update :
        e.table_size_update_pending ≡ true
        → e.pending_table_size < 2 ^ 32
        → encode_size_update e space ≡ encode_integer e.pending_table_size 0x20 5 (some space)
    unfolding encode_size_update
    one_update h small =
        let exact : e.pending_table_size % 2 ^ 32 ≡ e.pending_table_size = mod-eq_of_lt small in
        rw (h, exact) refl

    -- With room for the block and for what it stands for, `Decode` reads what `Encode` wrote, up to
    -- the case of the names, and both ends agree again.
    pub block_round_trip : InStep e d → RoundTrips (encode always e headers space)
    unfolding encode
    block_round_trip (settled quiet_so_far h) = rw (no_update quiet_so_far) (settled_block h)
    block_round_trip (announcing before pending h table admitted small) =
        let (size, written, back) =
          encode_integer-ReadsBack e.pending_table_size 0x20 5 space small refl (omega arith) in
        let agree : Agree e.table (update_max_size e.pending_table_size d.table) =
          rw table (update_max_size-Agree before d.table e.pending_table_size h small) in
        rw (one_update pending small ∙ written)
          (announced_block e.pending_table_size size back admitted agree)
