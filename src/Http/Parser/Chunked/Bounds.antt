-- ===== src/Http/Parser/Chunked/Bounds.antt =====
-- What DecodeChunkedBodyWithTrailers, src/KernelHttpLib/http/HttpParser.cpp, stores and consumes.
use win_kernel_http.Common.{
  ℕ, zero, suc, List, [], ◌∷◌, ◌++◌, ◌+◌, ◌≤◌, ◌≡◌, ap, false, ◌==◌, Option, none, some, length,
  take, drop, length-drop, length-append, arith, Option-cases, Bool-cases, inl, inr,
}
use win_kernel_http.Common.Buffer.{Bytes}
use win_kernel_http.Common.Status.{ok, Result-cases}
use win_kernel_http.Http.Response.{HttpHeader}
use win_kernel_http.Http.Parser.Lines.{find_crlf}
use win_kernel_http.Http.Parser.Trailer.{parse_trailer_field_line}
use win_kernel_http.Http.Parser.Chunked.{
  no_end, Decoded, trailer_rounds, chunk_rounds, chunk_size, copy_chunk_data, after_chunk,
  decode_chunked_body_with_trailers, max_trailers, is_full,
}
use win_kernel_http.Http.Parser.Chunked.Fuel.{find_crlf_fits}

-- A count within an array that may be absent.
abbrev pub IsWithin : Option ℕ → ℕ → Type 0
IsWithin none count = Unit {0}
IsWithin (some capacity) count = count ≤ capacity

pub record IsDecoded (d : Decoded) (body : Bytes) (limit : ℕ) (slots : Option ℕ) : Type 0 where
  pub body_kept : d.body ≡ body
  pub consumed_in : d.consumed ≤ limit
  pub trailers_in : length d.trailers ≤ max_trailers
  pub slots_in : IsWithin slots (length d.trailers)

ok_injective {ℓ} : {A : Type ℓ} {a b : A} → ok a ≡ ok b → a ≡ b
ok_injective h = cc h

next-IsWithin :
    (slots : Option ℕ) (trailers : List HttpHeader) (trailer : HttpHeader)
    → is_full slots (length trailers) ≡ false
    → IsWithin slots (length (trailers ++ (trailer ∷ [])))
unfolding is_full
next-IsWithin none trailers trailer h = tt
next-IsWithin (some capacity) trailers trailer h =
    ground (arith, length-append trailers (trailer ∷ []))

trailer_rounds-IsDecoded :
    (k : ℕ) (rest : Bytes) (cursor limit : ℕ) (slots : Option ℕ) (body : Bytes)
    (trailers : List HttpHeader) (d : Decoded)
    → trailer_rounds no_end k rest cursor slots body trailers ≡ ok d
    → cursor + length rest ≤ limit
    → length trailers ≤ max_trailers
    → IsWithin slots (length trailers)
    → IsDecoded d body limit slots
unfolding trailer_rounds
trailer_rounds-IsDecoded zero rest cursor limit slots body trailers d h l m w =
    absurd (ground arith)
trailer_rounds-IsDecoded (suc k) rest cursor limit slots body trailers d h l m w =
    elim (Option-cases (find_crlf rest)) [
      | inl missing ↦ absurd (ground (arith, rw (trailer_rounds, missing) at h))
      | inr (line_end, found) ↦
          let fits = find_crlf_fits rest line_end found in
          let shorter = length-drop (line_end + 2) rest in
          let h' = rw (trailer_rounds, found) at h in
          elim (Bool-cases (line_end == 0)) [
            | inl blank ↦
                let same : ok (record { body = body; consumed = cursor + 2; trailers = trailers })
                    ≡ ok d =
                  ground arith in
                record {
                  body_kept = ground arith;
                  consumed_in = ground arith;
                  trailers_in = ground arith;
                  slots_in = rw (ap Decoded.trailers (ok_injective same)) at w;
                }
            | inr line ↦ elim (Result-cases (parse_trailer_field_line (take line_end rest))) [
              | inl (trailer, parsed) ↦
                  let h'' = rw (parsed, line) at h' in
                  let next : trailer_rounds no_end k (drop (line_end + 2) rest)
                        (cursor + line_end + 2) slots body (trailers ++ (trailer ∷ []))
                      ≡ ok d =
                    ground arith in
                  let room : is_full slots (length trailers) ≡ false = ground arith in
                  let one_more = length-append trailers (trailer ∷ []) in
                  trailer_rounds-IsDecoded k (drop (line_end + 2) rest) (cursor + line_end + 2)
                    limit slots body (trailers ++ (trailer ∷ [])) d next (omega arith)
                    (ground arith) (next-IsWithin slots trailers trailer room)
              | inr (status, refused) ↦ absurd (ground (arith, rw refused at h'))
            ]
          ]
    ]

copied_within :
    (chunk body stored : Bytes) (capacity : ℕ)
    → copy_chunk_data chunk capacity body ≡ ok stored
    → length body ≤ capacity
    → length stored ≤ capacity
copied_within chunk body stored capacity h l = ground (arith, length-append body chunk)

after_chunk_enough : (rest : Bytes) → after_chunk rest ≡ ok tt → 2 ≤ length rest
after_chunk_enough rest h = ground arith

-- What the whole call promises.
pub record IsDecodedChunks (d : Decoded) (limit capacity : ℕ) (slots : Option ℕ) : Type 0 where
  pub body_in : length d.body ≤ capacity
  pub consumed_in : d.consumed ≤ limit
  pub trailers_in : length d.trailers ≤ max_trailers
  pub slots_in : IsWithin slots (length d.trailers)

chunk_rounds-IsDecodedChunks :
    (k : ℕ) (rest : Bytes) (cursor chunks limit capacity : ℕ) (slots : Option ℕ) (body : Bytes)
    (d : Decoded)
    → chunk_rounds no_end k rest cursor chunks capacity slots body ≡ ok d
    → cursor + length rest ≤ limit
    → length body ≤ capacity
    → IsWithin slots 0
    → IsDecodedChunks d limit capacity slots
unfolding chunk_rounds
chunk_rounds-IsDecodedChunks zero rest cursor chunks limit capacity slots body d h l b w =
    absurd (ground arith)
chunk_rounds-IsDecodedChunks (suc k) rest cursor chunks limit capacity slots body d h l b w =
    elim (Option-cases (find_crlf rest)) [
      | inl missing ↦ absurd (ground (arith, rw (chunk_rounds, missing) at h))
      | inr (line_end, found) ↦
          let fits = find_crlf_fits rest line_end found in
          let after = drop (line_end + 2) rest in
          let start = cursor + line_end + 2 in
          let shorter = length-drop (line_end + 2) rest in
          let h' = rw (chunk_rounds, found) at h in
          elim (Result-cases (chunk_size (take line_end rest))) [
            | inr (status, refused) ↦ absurd (ground (arith, rw refused at h'))
            | inl (size, parsed) ↦
                let h'' = rw parsed at h' in
                elim (Bool-cases (size == 0)) [
                  | inl last ↦
                      let next : trailer_rounds no_end k after start slots body [] ≡ ok d =
                        ground arith in
                      let decoded =
                        trailer_rounds-IsDecoded k after start limit slots body [] d next
                          (omega arith) (omega arith) w in
                      record {
                        body_in = rw decoded.body_kept b;
                        consumed_in = decoded.consumed_in;
                        trailers_in = decoded.trailers_in;
                        slots_in = decoded.slots_in;
                      }
                  | inr more ↦
                      elim (Result-cases (copy_chunk_data (take size after) capacity body)) [
                        | inr (status, full) ↦ absurd (ground (arith, rw (more, full) at h''))
                        | inl (stored, copied) ↦
                            let h3 = rw (more, copied) at h'' in
                            elim (Result-cases (after_chunk (drop size after))) [
                              | inr (status, broken) ↦ absurd (ground (arith, rw broken at h3))
                              | inl (u, whole) ↦
                                  let h4 = rw whole at h3 in
                                  let next : chunk_rounds no_end k (drop (size + 2) after)
                                        (start + size + 2) (chunks + 1) capacity slots stored
                                      ≡ ok d =
                                    ground arith in
                                  let enough = after_chunk_enough (drop size after) whole in
                                  chunk_rounds-IsDecodedChunks k (drop (size + 2) after)
                                    (start + size + 2) (chunks + 1) limit capacity slots stored d
                                    next
                                    (omega
                                      (arith, length-drop size after, length-drop (size + 2) after))
                                    (copied_within (take size after) body stored capacity copied b)
                                    w
                            ]
                      ]
                ]
          ]
    ]

none-IsWithin : (slots : Option ℕ) → IsWithin slots 0
none-IsWithin none = tt
none-IsWithin (some capacity) = omega arith

-- On any data, a call of `DecodeChunkedBodyWithTrailers` that succeeds has stored no more than the
-- body's capacity, reports no more than 256 trailers and no more than the trailer array holds where
-- there is one, and has consumed no more than the data.
pub decode_chunked_body_bounds :
    (data_ : Bytes) (capacity : ℕ) (slots : Option ℕ) (d : Decoded)
    → decode_chunked_body_with_trailers data_ capacity slots ≡ ok d
    → IsDecodedChunks d (length data_) capacity slots
unfolding decode_chunked_body_with_trailers
decode_chunked_body_bounds data_ capacity slots d h =
    chunk_rounds-IsDecodedChunks (suc (length data_)) data_ 0 0 (length data_) capacity slots [] d h
      (omega arith) (omega arith) (none-IsWithin slots)
