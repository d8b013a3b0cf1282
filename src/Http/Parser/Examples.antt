-- ===== src/Http/Parser/Examples.antt =====
-- Messages that the parser of src/KernelHttpLib/http/HttpParser.cpp reads.
use win_kernel_http.Common.{suc, List, [], ◌∷◌, ◌+◌, ◌≡◌, refl, none, length, arith, All}
use win_kernel_http.Common.Buffer.{Bytes, bytes}
use win_kernel_http.Common.Status.{ok}
use win_kernel_http.Common.Text.{codes}
use win_kernel_http.Http.Text.{trim, trim_front, trimmed_length}
use win_kernel_http.Http.Response.{HttpHeader}
use win_kernel_http.Http.Parser.Number.{parse_size, parse_hex_size}
use win_kernel_http.Http.Parser.Number.Positional.{
  number, decimal_digit, hexadecimal_digit, bounded, parse_sizes_lem,
}
use win_kernel_http.Http.Parser.Lines.{find_crlf}
use win_kernel_http.Http.Parser.Trailer.{line_value}
use win_kernel_http.Http.Parser.StatusLine.{parse_status_line}
use win_kernel_http.Http.Parser.StatusLine.RoundTrip.{status_line, status_line_round_trip}
use win_kernel_http.Http.Parser.Fields.{
  parse_headers, read_content_length, header_rounds, parse_header_line,
}
use win_kernel_http.Http.Parser.Fields.ContentLength.{
  content_lengths, lengths_verdict, read_content_length_lem,
}
use win_kernel_http.Http.Parser.Fields.Validity.{IsFields, parse_headers-IsFields}
use win_kernel_http.Http.Parser.Chunked.{
  Decoded, chunk_rounds, decode_chunked_body, decode_chunked_body_with_trailers,
}
use win_kernel_http.Http.Parser.Chunked.Fuel.{chunk_rounds_end}
use win_kernel_http.Http.Parser.Chunked.Bounds.{IsDecodedChunks, decode_chunked_body_bounds}
use win_kernel_http.Http.Parser.Chunked.RoundTrip.{
  Chunk, IsChunk, wire, payloads, chunked_round_trip,
}

parse_sizes_lem_example :
    (parse_size (codes "1042") ≡ bounded (number decimal_digit 10 (codes "1042")))
    × (parse_hex_size (codes "fF0") ≡ bounded (number hexadecimal_digit 16 (codes "fF0")))
parse_sizes_lem_example =
    parse_sizes_lem (codes "1042") (codes "fF0") (omega arith) refl (omega arith) refl

abbrev two_chunks : List Chunk
two_chunks =
    record { size_text = codes "3"; payload = codes "abc" }
    ∷ record { size_text = codes "02"; payload = codes "de" }
    ∷ []

two_chunks-IsChunk : All IsChunk two_chunks
two_chunks-IsChunk = (
  record {
    sized = record { some_digit = omega arith; short = omega arith; digits = refl; size_is = refl };
    not_empty = omega arith;
    fits = omega arith;
  },
  (
    record {
      sized = record {
        some_digit = omega arith;
        short = omega arith;
        digits = refl;
        size_is = refl;
      };
      not_empty = omega arith;
      fits = omega arith;
    },
    tt,
  ),
)

chunked_round_trip_example :
    decode_chunked_body (wire two_chunks (codes "more")) 5
    ≡ ok (record {
      body = payloads two_chunks;
      consumed = length (wire two_chunks []);
      trailers = [];
    })
chunked_round_trip_example =
    chunked_round_trip two_chunks (codes "more") 5 two_chunks-IsChunk (omega arith) (omega arith)

abbrev nothing_decoded : Decoded
nothing_decoded = record { body = []; consumed = 0; trailers = [] }

chunk_rounds_end_example :
    chunk_rounds
      (ok nothing_decoded)
      (suc (length (wire two_chunks [])) + 7)
      (wire two_chunks [])
      0
      0
      5
      none
      []
    ≡ decode_chunked_body_with_trailers (wire two_chunks []) 5 none
chunk_rounds_end_example = chunk_rounds_end (ok nothing_decoded) (wire two_chunks []) 7 5 none

decode_chunked_body_bounds_example :
    IsDecodedChunks
      (record { body = payloads two_chunks; consumed = length (wire two_chunks []); trailers = [] })
      (length (wire two_chunks (codes "more")))
      5
      none
decode_chunked_body_bounds_example =
    decode_chunked_body_bounds (wire two_chunks (codes "more")) 5 none
      (record { body = payloads two_chunks; consumed = length (wire two_chunks []); trailers = [] })
      (chunked_round_trip two_chunks (codes "more") 5 two_chunks-IsChunk (omega arith)
        (omega arith))

status_line_round_trip_example :
    parse_status_line (status_line 1 404 (codes "Not Found"))
    ≡ ok (record {
      major_version = 1;
      minor_version = 1;
      status_code = 404;
      reason_phrase = codes "Not Found";
    })
status_line_round_trip_example =
    status_line_round_trip 1 404 (codes "Not Found") (omega arith) (omega arith) (omega arith)

abbrev length_headers : List HttpHeader
length_headers =
    record { name = bytes (codes "content-length"); value = bytes (codes "12") }
    ∷ record { name = bytes (codes "Host"); value = bytes (codes "a") }
    ∷ []

read_content_length_lem_example :
    read_content_length length_headers ≡ lengths_verdict (content_lengths length_headers)
read_content_length_lem_example = read_content_length_lem length_headers

abbrev two_lines : Bytes
two_lines = codes "Host: a\r\nAge: 1\r\n\r\n"

abbrev two_headers : List HttpHeader
two_headers =
    record { name = bytes (codes "Host"); value = bytes (codes "a") }
    ∷ record { name = bytes (codes "Age"); value = bytes (codes "1") }
    ∷ []

two_lines_headers : parse_headers two_lines 0 19 4 ≡ ok two_headers
unfolding parse_headers header_rounds find_crlf parse_header_line line_value trim trim_front
    trimmed_length
two_lines_headers = refl

parse_headers-IsFields_example : IsFields two_headers 4
parse_headers-IsFields_example =
    parse_headers-IsFields two_lines 0 19 4 two_headers two_lines_headers
