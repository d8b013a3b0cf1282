-- ===== src/Http/Parser/Chunked.antt =====
-- DecodeChunkedBodyWithTrailers and DecodeChunkedBody of src/KernelHttpLib/http/HttpParser.cpp.
use win_kernel_http.Common.{
  ℕ, zero, suc, List, [], ◌∷◌, ◌++◌, ◌+◌, ◌-◌, Bool, true, false, not, ◌&&◌, ◌||◌, ltb, leb, ◌==◌,
  if◌then◌else◌, Option, none, some, length, take, drop,
}
use win_kernel_http.Common.Buffer.{Bytes, byte_at}
use win_kernel_http.Common.Status.{
  Result, ok, err, ◌>>=◌, ◌>>◌, refuse, require, buffer_too_small, invalid_network_response,
  more_processing_required,
}
use win_kernel_http.Http.Text.{trim}
use win_kernel_http.Http.Response.{HttpHeader}
use win_kernel_http.Http.Parser.Chars.{until_char, from_char}
use win_kernel_http.Http.Parser.Number.{parse_hex_size}
use win_kernel_http.Http.Parser.Lines.{find_crlf}
use win_kernel_http.Http.Parser.Parameters.{validate_semicolon_parameters}
use win_kernel_http.Http.Parser.Trailer.{parse_trailer_field_line}
pub mod Fuel
pub mod Bounds
pub mod RoundTrip

abbrev pub max_chunk_size_line_bytes : ℕ
max_chunk_size_line_bytes = 32

abbrev pub max_header_line_bytes : ℕ
max_header_line_bytes = 8192

abbrev pub max_chunks : ℕ
max_chunks = 8192

abbrev pub max_trailers : ℕ
max_trailers = 256

-- What a call that succeeds stored and reports. The trailers are stored where there is an array.
pub record Decoded : Type 0 where
  pub body : Bytes
  pub consumed : ℕ
  pub trailers : List HttpHeader

-- `trailers != nullptr && trailerCount >= trailerCapacity`
unfoldable pub is_full : Option ℕ → ℕ → Bool
is_full none count = false
is_full (some capacity) count = leb capacity count

-- The loop over the trailer lines, with at most `fuel` rounds; `unfinished` is the result where it
-- does not end within them.
unfoldable pub trailer_rounds :
    (unfinished : Result Decoded) (fuel : ℕ)
    → Bytes
    → ℕ
    → Option ℕ
    → Bytes
    → List HttpHeader
    → Result Decoded
unfolding is_full
trailer_rounds unfinished zero rest cursor capacity body trailers = unfinished
trailer_rounds unfinished (suc fuel) rest cursor capacity body trailers = elim (find_crlf rest) [
  | none ↦ err more_processing_required
  | some line_end ↦
      if ltb max_header_line_bytes line_end
      then err invalid_network_response
      else if line_end == 0
      then ok (record { body = body; consumed = cursor + 2; trailers = trailers })
      else if leb max_trailers (length trailers)
      then err invalid_network_response
      else if is_full capacity (length trailers)
      then err buffer_too_small
      else (parse_trailer_field_line (take line_end rest) >>= λ trailer.
          trailer_rounds unfinished fuel (drop (line_end + 2) rest) (cursor + line_end + 2) capacity
            body (trailers ++ (trailer ∷ [])))
]

-- `CopyChunkData`; a null destination has no capacity.
abbrev pub copy_chunk_data : Bytes → ℕ → Bytes → Result Bytes
copy_chunk_data chunk capacity body =
    if length chunk == 0
    then ok body
    else if ltb capacity (length body) || ltb (capacity - length body) (length chunk)
    then err buffer_too_small
    else ok (body ++ chunk)

-- The size line of a chunk.
unfoldable pub chunk_size : Bytes → Result ℕ
unfolding trim
chunk_size line = do
  if length (from_char b';' line) == 0
      then ok tt
      else validate_semicolon_parameters (from_char b';' line)
  refuse (length (trim (until_char b';' line)) == 0) invalid_network_response
  parse_hex_size (trim (until_char b';' line))

-- What stands between the chunk's data and the next size line.
abbrev pub after_chunk : Bytes → Result (Unit {0})
after_chunk rest = do
  refuse (ltb (length rest) 2) more_processing_required
  require (byte_at rest 0 == b'\r' && byte_at rest 1 == b'\n') invalid_network_response

-- The loop over the chunks, with at most `fuel` rounds, and `unfinished` where it does not end within
-- them; `capacity` is that of the body, `slots` that of the trailers, if there is an array for them.
unfoldable pub chunk_rounds :
    (unfinished : Result Decoded) (fuel : ℕ) → Bytes → ℕ → ℕ → ℕ → Option ℕ → Bytes → Result Decoded
unfolding chunk_size trailer_rounds
chunk_rounds unfinished zero rest cursor chunks capacity slots body = unfinished
chunk_rounds unfinished (suc fuel) rest cursor chunks capacity slots body = elim (find_crlf rest) [
  | none ↦ err more_processing_required
  | some line_end ↦
      let after = drop (line_end + 2) rest in
      let start = cursor + line_end + 2 in
      if ltb max_chunk_size_line_bytes line_end
      then err invalid_network_response
      else (chunk_size (take line_end rest) >>= λ size.
          if size == 0
          then trailer_rounds unfinished fuel after start slots body []
          else if ltb max_chunks (chunks + 1)
          then err invalid_network_response
          else if ltb (length after) size
          then err more_processing_required
          else (copy_chunk_data (take size after) capacity body >>= λ stored.
              after_chunk (drop size after)
              >> chunk_rounds unfinished fuel (drop (size + 2) after) (start + size + 2)
                  (chunks + 1) capacity slots stored))
]

-- What stands in the model for a loop that does not end.
abbrev pub no_end : Result Decoded
no_end = err more_processing_required

-- Each round passes at least two characters, and the search for a line end fails at the end.
unfoldable pub decode_chunked_body_with_trailers : Bytes → ℕ → Option ℕ → Result Decoded
unfolding chunk_rounds
decode_chunked_body_with_trailers data_ capacity slots =
    chunk_rounds no_end (suc (length data_)) data_ 0 0 capacity slots []

-- `DecodeChunkedBody`.
abbrev pub decode_chunked_body : Bytes → ℕ → Result Decoded
decode_chunked_body data_ capacity = decode_chunked_body_with_trailers data_ capacity none
