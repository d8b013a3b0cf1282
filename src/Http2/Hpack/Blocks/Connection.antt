-- ===== src/Http2/Hpack/Blocks/Connection.antt =====
-- HpackEncoder and HpackDecoder of src/KernelHttpLib/http2/Hpack.cpp over the blocks of a
-- connection, from Initialize on.
use win_kernel_http.Common.{
  ℕ, List, [], ◌∷◌, ◌+◌, ◌*◌, ◌^◌, ◌≤◌, ◌<◌, ◌≡◌, refl, ◌∙◌, inl, inr, true, false, Bool-cases, All,
  ◌==◌, Option, none, some, length, arith,
}
use win_kernel_http.Common.Buffer.{Bytes}
use win_kernel_http.Common.Status.{Result, ok, err}
use win_kernel_http.Http2.Hpack.Table.{Field}
use win_kernel_http.Http2.Hpack.Table.Run.{fresh_table, fresh-IsModel, initialize_table_fresh}
use win_kernel_http.Http2.Hpack.Decoder.{HpackDecoder, initialize_decoder, decode}
use win_kernel_http.Http2.Hpack.Encoder.{
  HpackEncoder, initialize_encoder, update_encoder_max_table_size, encode,
}
use win_kernel_http.Http2.Hpack.Blocks.Fold.{fold_fields}
use win_kernel_http.Http2.Hpack.Blocks.Agreement.{Agree}
use win_kernel_http.Http2.Hpack.Blocks.Names.{IsHeader}
use win_kernel_http.Http2.Hpack.Blocks.Rounds.{always}
use win_kernel_http.Http2.Hpack.Blocks.Delivery.{texts_size, block_bound, header_list_size_of}
use win_kernel_http.Http2.Hpack.Blocks.RoundTrip.{InStep, settled, announcing, block_round_trip}

-- A new limit for the encoder's table, if any, and the block behind it.
pub record Exchange : Type 0 where
  pub resize : Option ℕ
  pub headers : List Field

abbrev pub resized : Option ℕ → HpackEncoder → HpackEncoder
resized none e = e
resized (some n) e = update_encoder_max_table_size n e

-- The limits of both ends: the space for a block, and what the decoder is called with.
pub record Limits : Type 0 where
  pub space : ℕ
  pub header_capacity : ℕ
  pub capacity : ℕ
  pub max_header_list_size : ℕ

-- What the decoder makes of what the encoder wrote.
abbrev pub received : Limits → HpackDecoder → Result Bytes → HpackDecoder × Result (List Field × ℕ)
received l d (err status) = (d, err status)
received l d (ok block) = decode always d block l.header_capacity l.capacity l.max_header_list_size

-- The headers that the decoder returns for every block, with the case of the names folded.
abbrev pub folded : Result (List Field × ℕ) → Result (List Field)
folded (err status) = err status
folded (ok (fs, used)) = ok (fold_fields fs)

abbrev pub exchange_all :
    Limits → List Exchange → HpackEncoder → HpackDecoder → List (Result (List Field))
exchange_all l [] e d = []
exchange_all l (x ∷ xs) e d =
    let sent = encode always (resized x.resize e) x.headers l.space in
    let got = received l d sent.1 in folded got.1 ∷ exchange_all l xs sent.0 got.0

abbrev pub sent_headers : List Exchange → List (Result (List Field))
sent_headers [] = []
sent_headers (x ∷ xs) = ok (fold_fields x.headers) ∷ sent_headers xs

-- A limit that the decoder admits, and headers for which both ends have room.
abbrev pub IsAdmitted : ℕ → Option ℕ → Type 0
IsAdmitted max_table_size none = Unit {0}
IsAdmitted max_table_size (some n) = n ≤ max_table_size

pub record IsExchange (l : Limits) (max_table_size : ℕ) (x : Exchange) : Type 0 where
  pub admitted : IsAdmitted max_table_size x.resize
  pub fine : All IsHeader x.headers
  pub fits : 6 + block_bound x.headers ≤ l.space
  pub room : 2 * texts_size x.headers ≤ l.capacity
  pub listed : header_list_size_of x.headers ≤ l.max_header_list_size
  pub count : length x.headers ≤ l.header_capacity

resized-InStep :
    (resize : Option ℕ) (e : HpackEncoder) (d : HpackDecoder)
    → e.table_size_update_pending ≡ false
    → Agree e.table d.table
    → IsAdmitted d.max_table_size resize
    → d.max_table_size < 2 ^ 32
    → InStep (resized resize e) d
unfolding update_encoder_max_table_size
resized-InStep none e d quiet h admitted small = settled quiet h
resized-InStep (some n) e d quiet h admitted small = elim (Bool-cases (e.max_table_size == n)) [
  | inl same ↦ rw same (settled quiet h)
  | inr new ↦ rw new (announcing e.table refl h refl admitted (omega arith))
]

module _ (l : Limits) (small_capacity : l.capacity < 2 ^ 62)
    (small_limit : l.max_header_list_size < 2 ^ 64) where
  exchanges_read :
      (xs : List Exchange) (e : HpackEncoder) (d : HpackDecoder) (max_table_size : ℕ)
      → d.max_table_size ≡ max_table_size
      → max_table_size < 2 ^ 32
      → e.table_size_update_pending ≡ false
      → Agree e.table d.table
      → All (IsExchange l max_table_size) xs
      → exchange_all l xs e d ≡ sent_headers xs
  exchanges_read [] e d max_table_size m small quiet h fine = refl
  exchanges_read (x ∷ xs) e d max_table_size m small quiet h (now, later) =
      let admitted : IsAdmitted d.max_table_size x.resize = rw m now.admitted in
      let in_step = resized-InStep x.resize e d quiet h admitted (omega arith) in
      let (block, written, read) =
        block_round_trip l.header_capacity l.capacity l.max_header_list_size small_capacity
          small_limit (resized x.resize e) d x.headers l.space now.fine now.fits now.room now.listed
          now.count in_step in
      let rest =
        exchanges_read xs (encode always (resized x.resize e) x.headers l.space).0
          (decode always d block l.header_capacity l.capacity l.max_header_list_size).0
          max_table_size (read.same_max ∙ m) small read.announced read.agree later in
      rw (written, read.succeeds, read.same, rest) refl

  -- For decoder limits with an output buffer below 2^62 bytes and a header list limit below 2^64,
  -- let an encoder and a decoder be initialised with the same table size, above 0 and below 2^32,
  -- where every allocation succeeds. Then both initialisations succeed, and for any sequence of
  -- blocks, each with at most one new limit for the encoder's table in front that is no larger than
  -- the decoder's table size, the decoder returns for every block the headers that the encoder was
  -- given, in order, up to the ASCII case of their names. Each header must have a name and be of
  -- bytes, with less than 2^26 of them; the space for a block must hold 6 bytes and for each header
  -- 13 and its texts, the output buffer twice the texts, and the array and the header list limit
  -- the headers.
  pub connection_round_trip :
      (e : HpackEncoder) (d : HpackDecoder) (max_table_size : ℕ) (xs : List Exchange)
      → 0 < max_table_size
      → max_table_size < 2 ^ 32
      → All (IsExchange l max_table_size) xs
      → (e1 : HpackEncoder) × (d1 : HpackDecoder) × (initialize_encoder true true max_table_size e
          ≡ ok e1)
        × (initialize_decoder true true max_table_size d ≡ ok d1)
        × (exchange_all l xs e1 d1 ≡ sent_headers xs)
  unfolding initialize_encoder initialize_decoder
  connection_round_trip e d max_table_size xs p small fine =
      let fresh = fresh-IsModel max_table_size (omega arith) in
      let agree : Agree (fresh_table max_table_size) (fresh_table max_table_size) = record {
        sender = fresh.table;
        receiver = fresh.table;
        limit = refl;
        small = small;
        within = omega arith;
        same = refl;
      } in
      (
        _,
        _,
        rw (initialize_table_fresh max_table_size e.table p (omega arith)) refl,
        rw (initialize_table_fresh max_table_size d.table p (omega arith)) refl,
        exchanges_read xs
            (record {
              table = fresh_table max_table_size;
              max_table_size = max_table_size;
              pending_table_size = max_table_size;
              table_size_update_pending = false;
            })
            (record { table = fresh_table max_table_size; max_table_size = max_table_size })
            max_table_size refl small refl agree fine,
      )
