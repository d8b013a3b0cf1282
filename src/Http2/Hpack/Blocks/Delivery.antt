-- ===== src/Http2/Hpack/Blocks/Delivery.antt =====
-- The loops of HpackEncoder::Encode and HpackDecoder::Decode of
-- src/KernelHttpLib/http2/Hpack.cpp on the headers of a block.
use win_kernel_http.Common.{
  ℕ, zero, suc, true, List, [], ◌∷◌, ◌++◌, ◌+◌, ◌-◌, ◌*◌, ◌^◌, ◌≤◌, ◌<◌, ◌≡◌, refl, sym, ap, ◌∙◌,
  All, length, arith, length-append,
}
use win_kernel_http.Common.Buffer.{Bytes, byte_at}
use win_kernel_http.Common.Status.{Result, ok, err}
use mathlib.Core.List.{append_assoc, append-nil}
use win_kernel_http.Http2.Hpack.Table.{Table, Field}
use win_kernel_http.Http2.Hpack.Decoder.{
  Progress, representation, decode_as, on_first, and_continue, decode_rounds,
}
use win_kernel_http.Http2.Hpack.Encoder.{encode_header, and_encode, append_out, encode_rounds}
use win_kernel_http.Http2.Hpack.Blocks.Fold.{fold_fields}
use win_kernel_http.Http2.Hpack.Blocks.Agreement.{Agree}
use win_kernel_http.Http2.Hpack.Blocks.Names.{IsHeader}
use win_kernel_http.Http2.Hpack.Blocks.Rounds.{always}
use win_kernel_http.Http2.Hpack.Blocks.Headers.{text_size, IsSent, text_size-same}
use win_kernel_http.Http2.Hpack.Blocks.Sending.{encode_header-Sends}

-- The text of some headers, what their block takes at most, and their size by RFC 7541.
abbrev pub texts_size : List Field → ℕ
texts_size [] = 0
texts_size (f ∷ fs) = text_size f + texts_size fs

abbrev pub block_bound : List Field → ℕ
block_bound [] = 0
block_bound (f ∷ fs) = 13 + text_size f + block_bound fs

abbrev pub header_list_size_of : List Field → ℕ
header_list_size_of [] = 0
header_list_size_of (f ∷ fs) = text_size f + 32 + header_list_size_of fs

pub appended :
    (front rest : Bytes) (r : Table × Result Bytes)
    → r.1 ≡ ok rest
    → append_out front r ≡ (r.0, ok (front ++ rest))
appended front rest (t, ok out) h = let same : out ≡ rest = cc h in rw same refl
appended front rest (t, err status) h = cc

module _ (max_table_size header_capacity capacity limit : ℕ) where
  pub rounds_end :
      (fuel : ℕ) (t : Table) (p : Progress)
      → p.behind ≡ []
      → decode_rounds always max_table_size header_capacity capacity limit fuel t p ≡ (t, ok p)
  unfolding decode_rounds
  rounds_end zero t p e = refl
  rounds_end (suc fuel) t p e =
      ap
        (λ (bs : Bytes).
          on_first bs (t, ok p)
            λ byte.
              and_continue
                (decode_as always max_table_size header_capacity capacity limit
                  (representation byte) t p)
                (decode_rounds always max_table_size header_capacity capacity limit fuel))
        e

  pub rounds_step :
      (fuel : ℕ) (t : Table) (p : Progress) (out rest : Bytes)
      → 1 ≤ length out
      → p.behind ≡ out ++ rest
      → decode_rounds always max_table_size header_capacity capacity limit (suc fuel) t p
        ≡ and_continue
            (decode_as always max_table_size header_capacity capacity limit
              (representation (byte_at out 0))
              t
              p)
            (decode_rounds always max_table_size header_capacity capacity limit fuel)
  unfolding decode_rounds
  rounds_step fuel t p [] rest h e = absurd (omega arith)
  rounds_step fuel t p (b ∷ out) rest h e =
      ap
        (λ (bs : Bytes).
          on_first bs (t, ok p)
            λ byte.
              and_continue
                (decode_as always max_table_size header_capacity capacity limit
                  (representation byte) t p)
                (decode_rounds always max_table_size header_capacity capacity limit fuel))
        e

-- A block of headers on the wire: with a round for each of its bytes, the decoder reads all of it
-- and emits the headers, and the tables stay together.
pub record IsDelivered (max_table_size header_capacity capacity limit : ℕ) (e d : Table)
    (headers : List Field) (out : Bytes) : Type 0 where
  pub short : length out ≤ block_bound headers
  pub next : Table
  pub read : List Field
  pub same : fold_fields read ≡ fold_fields headers
  pub agree : Agree e next
  pub delivers :
      (fuel : ℕ) (p : Progress)
      → p.behind ≡ out
      → length out ≤ fuel
      → p.nv_offset + 2 * texts_size headers ≤ capacity
      → p.header_list_size + header_list_size_of headers ≤ limit
      → length p.headers + length headers ≤ header_capacity
      → (q : Progress) × (decode_rounds always max_table_size header_capacity capacity limit fuel d
            p
          ≡ (next, ok q))
        × (q.headers ≡ p.headers ++ read)
        × (q.nv_offset ≤ p.nv_offset + 2 * texts_size headers)

module _ (max_table_size header_capacity capacity limit : ℕ) (small_capacity : capacity < 2 ^ 62)
    (small_limit : limit < 2 ^ 64) where
  abbrev pub Delivers : Table → List Field → Table × Result Bytes → Type 0
  Delivers d headers r =
      (out : Bytes) × (r.1 ≡ ok out)
      × IsDelivered max_table_size header_capacity capacity limit r.0 d headers out

  no_headers-IsDelivered :
      (e d : Table)
      → Agree e d
      → IsDelivered max_table_size header_capacity capacity limit e d [] []
  no_headers-IsDelivered e d h = record {
    short = omega arith;
    next = d;
    read = [];
    same = refl;
    agree = h;
    delivers = λ fuel p left _ _ _ _. (
      p,
      rounds_end max_table_size header_capacity capacity limit fuel d p left,
      sym (append-nil p.headers),
      omega arith,
    );
  }

  one_more_delivers :
      (e1 e2 d : Table) (header : Field) (headers : List Field) (first rest : Bytes)
      → (s : IsSent max_table_size header_capacity capacity limit e1 d header first)
      → (l : IsDelivered max_table_size header_capacity capacity limit e2 s.next headers rest)
      → (fuel : ℕ) (p : Progress) → p.behind ≡ first ++ rest
      → length (first ++ rest) ≤ fuel
      → p.nv_offset + 2 * texts_size (header ∷ headers) ≤ capacity
      → p.header_list_size + header_list_size_of (header ∷ headers) ≤ limit
      → length p.headers + length (header ∷ headers) ≤ header_capacity
      → (q : Progress) × (decode_rounds always max_table_size header_capacity capacity limit fuel d
            p
          ≡ (l.next, ok q))
        × (q.headers ≡ p.headers ++ (s.read ∷ l.read))
        × (q.nv_offset ≤ p.nv_offset + 2 * texts_size (header ∷ headers))
  one_more_delivers e1 e2 d header headers first rest s l zero p left fuelled room listed count =
      absurd (omega (arith, length-append first rest, s.some_byte))
  one_more_delivers e1 e2 d header headers first rest s l (suc fuel) p left fuelled room listed
        count =
      let (q, e, em) =
        s.emits p rest left
          (record { placed_in = omega arith; listed_in = omega arith; emitted_in = omega arith }) in
      let size =
        text_size-same max_table_size header_capacity capacity limit small_capacity small_limit
          header s.read s.same in
      let grown = length-append p.headers (s.read ∷ []) in
      let (final, e', hs, used) =
        l.delivers fuel q em.left (omega (arith, length-append first rest, s.some_byte))
          (omega (arith, em.placed)) (omega (arith, em.listed))
          (omega (arith, ap (λ (fs : List Field). length fs) em.headers)) in
      (
        final,
        rounds_step max_table_size header_capacity capacity limit fuel d p first rest s.some_byte
              left
            ∙ ap
                (λ (r : Table × Result Progress).
                  and_continue r
                    (decode_rounds always max_table_size header_capacity capacity limit fuel))
                e
            ∙ e',
        hs
            ∙ ap (λ (fs : List Field). fs ++ l.read) em.headers
            ∙ append_assoc p.headers (s.read ∷ []) l.read,
        omega (arith, em.placed),
      )

  one_more-IsDelivered :
      (e1 e2 d : Table) (header : Field) (headers : List Field) (first rest : Bytes)
      → (s : IsSent max_table_size header_capacity capacity limit e1 d header first)
      → IsDelivered max_table_size header_capacity capacity limit e2 s.next headers rest
      → IsDelivered max_table_size header_capacity capacity limit e2 d
          (header ∷ headers)
          (first ++ rest)
  one_more-IsDelivered e1 e2 d header headers first rest s l = record {
    short = omega (arith, length-append first rest, s.short, l.short);
    next = l.next;
    read = s.read ∷ l.read;
    same = λ i. s.same i ∷ l.same i;
    agree = l.agree;
    delivers = one_more_delivers e1 e2 d header headers first rest s l;
  }

  sent_on :
      (d : Table) (header : Field) (headers : List Field) (room : ℕ) (r : Table × Result Bytes)
      (next : Table → ℕ → Table × Result Bytes)
      → (sent : (out : Bytes) × (r.1 ≡ ok out)
          × IsSent max_table_size header_capacity capacity limit r.0 d header out)
      → Delivers sent.2.next headers (next r.0 (length sent.0))
      → Delivers d (header ∷ headers) (and_encode r next)
  sent_on d header headers room (e1, err status) next (out, e, s) l = cc
  sent_on d header headers room (e1, ok first) next (out, e, s) (rest, e', l) =
      let same : first ≡ out = cc e in
      rw (same, appended out rest (next e1 (length out)) e')
        (
          out ++ rest,
          refl,
          one_more-IsDelivered e1 (next e1 (length out)).0 d header headers out rest s l,
        )

  -- With room for it, a block of headers is written so that the decoder reads all of it.
  pub encode_rounds-Delivers :
      (index : ℕ) (e d : Table) (headers : List Field) (room : ℕ)
      → Agree e d
      → All IsHeader headers
      → block_bound headers ≤ room
      → Delivers d headers (encode_rounds always index e headers room)
  unfolding encode_rounds
  encode_rounds-Delivers index e d [] room h fine fits = ([], refl, no_headers-IsDelivered e d h)
  encode_rounds-Delivers index e d (header ∷ headers) room h fine fits =
      let sent =
        encode_header-Sends max_table_size header_capacity capacity limit small_capacity small_limit
          e d header room h fine.0 (omega arith) in
      sent_on d header headers room (encode_header (true, true) e header room)
        (λ next used. encode_rounds always (index + 1) next headers (room - used)) sent
        (encode_rounds-Delivers (index + 1) (encode_header (true, true) e header room).0 sent.2.next
          headers (room - length sent.0) sent.2.agree fine.1 (omega (arith, sent.2.short)))
