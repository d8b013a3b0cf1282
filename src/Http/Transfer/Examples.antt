-- ===== src/Http/Transfer/Examples.antt =====
-- Announced transfer codings.
use win_kernel_http.Common.{List, [], ◌∷◌, ◌≡◌, refl, true}
use win_kernel_http.Common.Buffer.{bytes}
use win_kernel_http.Common.Status.{ok}
use win_kernel_http.Common.Text.{codes}
use win_kernel_http.Http.Text.{
  trim, trim_front, trimmed_length, until_comma, from_comma, text_equals_ignore_case,
  same_ignore_case,
}
use win_kernel_http.Http.Response.{HttpHeader}
use win_kernel_http.Http.Transfer.{
  TransferCodingInfo, chunked, gzip, parse_transfer_codings, parse_rounds, append_transfer_codings,
  codings_rounds, parse_transfer_coding_token, coding_of_token, append_transfer_coding,
}
use win_kernel_http.Http.Transfer.Announced.{IsAnnounced, parse_transfer_codings-IsAnnounced}

abbrev two_codings : List HttpHeader
two_codings =
    record { name = bytes (codes "transfer-encoding"); value = bytes (codes "gzip, chunked") } ∷ []

abbrev gzip_chunked : TransferCodingInfo
gzip_chunked = record {
  coding0 = gzip;
  coding1 = chunked;
  coding2 = chunked;
  coding3 = chunked;
  coding_count = 2;
  has_transfer_encoding = true;
  final_coding_is_chunked = true;
}

two_codings_info : parse_transfer_codings two_codings ≡ ok gzip_chunked
unfolding parse_transfer_codings parse_rounds append_transfer_codings codings_rounds
    parse_transfer_coding_token coding_of_token append_transfer_coding trim trim_front
    trimmed_length until_comma from_comma text_equals_ignore_case same_ignore_case
two_codings_info = refl

parse_transfer_codings-IsAnnounced_example : IsAnnounced gzip_chunked two_codings
parse_transfer_codings-IsAnnounced_example =
    parse_transfer_codings-IsAnnounced two_codings gzip_chunked two_codings_info
