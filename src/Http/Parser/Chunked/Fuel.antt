-- ===== src/Http/Parser/Chunked/Fuel.antt =====
-- The loops of DecodeChunkedBodyWithTrailers, src/KernelHttpLib/http/HttpParser.cpp, end.
use win_kernel_http.Common.{
  ℕ, zero, suc, List, [], ◌∷◌, ◌++◌, ◌+◌, ◌≤◌, ◌<◌, ◌≡◌, refl, Option, some, length, take, drop,
  length-drop, arith, Option-cases, inl, inr,
}
use win_kernel_http.Common.Buffer.{Bytes}
use win_kernel_http.Common.Status.{Result, Result-cases}
use win_kernel_http.Http.Response.{HttpHeader}
use win_kernel_http.Http.Parser.Lines.{find_crlf}
use win_kernel_http.Http.Parser.Trailer.{parse_trailer_field_line}
use win_kernel_http.Http.Parser.Chunked.{
  Decoded, no_end, trailer_rounds, chunk_rounds, chunk_size, copy_chunk_data,
  decode_chunked_body_with_trailers,
}

pub find_crlf_fits :
    (text : Bytes) (index : ℕ) → find_crlf text ≡ some index → index + 2 ≤ length text
unfolding find_crlf
find_crlf_fits [] index h = absurd (ground arith)
find_crlf_fits (a ∷ []) index h = absurd (ground arith)
find_crlf_fits (a ∷ b ∷ text) zero h = omega arith
find_crlf_fits (a ∷ b ∷ text) (suc index) h =
    omega (arith, find_crlf_fits (b ∷ text) index (ground arith))

trailer_rounds_fuel :
    (u v : Result Decoded) (k l : ℕ) (rest : Bytes) (cursor : ℕ) (slots : Option ℕ) (body : Bytes)
    (trailers : List HttpHeader)
    → length rest < k
    → length rest < l
    → trailer_rounds u k rest cursor slots body trailers
      ≡ trailer_rounds v l rest cursor slots body trailers
unfolding trailer_rounds
trailer_rounds_fuel u v zero l rest cursor slots body trailers h g = absurd (omega arith)
trailer_rounds_fuel u v (suc k) zero rest cursor slots body trailers h g = absurd (omega arith)
trailer_rounds_fuel u v (suc k) (suc l) rest cursor slots body trailers h g =
    elim (Option-cases (find_crlf rest)) [
      | inl missing ↦ rw (trailer_rounds, missing) refl
      | inr (line_end, found) ↦
          let fits = find_crlf_fits rest line_end found in
          let shorter = length-drop (line_end + 2) rest in
          elim (Result-cases (parse_trailer_field_line (take line_end rest))) [
            | inl (trailer, parsed) ↦
                let same =
                  trailer_rounds_fuel u v k l (drop (line_end + 2) rest) (cursor + line_end + 2)
                    slots body (trailers ++ (trailer ∷ [])) (omega arith) (omega arith) in
                rw (trailer_rounds, found, parsed, same) refl
            | inr (status, refused) ↦ rw (trailer_rounds, found, refused) refl
          ]
    ]

chunk_rounds_fuel :
    (u v : Result Decoded) (k l : ℕ) (rest : Bytes) (cursor chunks capacity : ℕ) (slots : Option ℕ)
    (body : Bytes)
    → length rest < k
    → length rest < l
    → chunk_rounds u k rest cursor chunks capacity slots body
      ≡ chunk_rounds v l rest cursor chunks capacity slots body
unfolding chunk_rounds
chunk_rounds_fuel u v zero l rest cursor chunks capacity slots body h g = absurd (omega arith)
chunk_rounds_fuel u v (suc k) zero rest cursor chunks capacity slots body h g = absurd (omega arith)
chunk_rounds_fuel u v (suc k) (suc l) rest cursor chunks capacity slots body h g =
    elim (Option-cases (find_crlf rest)) [
      | inl missing ↦ rw (chunk_rounds, missing) refl
      | inr (line_end, found) ↦
          let fits = find_crlf_fits rest line_end found in
          let after = drop (line_end + 2) rest in
          let shorter = length-drop (line_end + 2) rest in
          elim (Result-cases (chunk_size (take line_end rest))) [
            | inl (size, parsed) ↦
                let last =
                  trailer_rounds_fuel u v k l after (cursor + line_end + 2) slots body []
                    (omega arith) (omega arith) in
                let shorter_yet = length-drop (size + 2) after in
                elim (Result-cases (copy_chunk_data (take size after) capacity body)) [
                  | inl (stored, copied) ↦
                      let same =
                        chunk_rounds_fuel u v k l (drop (size + 2) after)
                          (cursor + line_end + 2 + size + 2) (chunks + 1) capacity slots stored
                          (omega arith) (omega arith) in
                      rw (chunk_rounds, found, parsed, last, copied, same) refl
                  | inr (status, full) ↦ rw (chunk_rounds, found, parsed, last, full) refl
                ]
            | inr (status, refused) ↦ rw (chunk_rounds, found, refused) refl
          ]
    ]

-- Whatever stands for a loop that does not end, on any data the loop over the chunks gives one and
-- the same result with any number of rounds above the number of characters, the one of
-- `DecodeChunkedBodyWithTrailers`: it ends by itself within them, as does the loop over the
-- trailers in it.
pub chunk_rounds_end :
    (unfinished : Result Decoded) (data_ : Bytes) (extra capacity : ℕ) (slots : Option ℕ)
    → chunk_rounds unfinished (suc (length data_) + extra) data_ 0 0 capacity slots []
      ≡ decode_chunked_body_with_trailers data_ capacity slots
unfolding decode_chunked_body_with_trailers
chunk_rounds_end unfinished data_ extra capacity slots =
    chunk_rounds_fuel unfinished no_end (suc (length data_) + extra) (suc (length data_)) data_ 0 0
      capacity slots [] (omega arith) (omega arith)
