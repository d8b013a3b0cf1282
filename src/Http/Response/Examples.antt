-- ===== src/Http/Response/Examples.antt =====
-- A Content-Range header.
use win_kernel_http.Common.{[], ◌∷◌, ◌≡◌, refl, true, some}
use win_kernel_http.Common.Buffer.{bytes}
use win_kernel_http.Common.Text.{codes}
use win_kernel_http.Http.Text.{trim_front, text_equals_ignore_case, same_ignore_case}
use win_kernel_http.Http.Response.{HttpResponse, find_header, find_in}
use win_kernel_http.Http.Response.Range.{
  ContentRange, get_content_range, range_of_buffer, range_of_value, satisfied_range, range_complete,
  parse_unsigned, unsigned_rounds,
}
use win_kernel_http.Http.Response.Range.Bounds.{IsRange, get_content_range-IsRange}

abbrev partial : HttpResponse
partial = record {
  status_code = 206;
  major_version = 1;
  minor_version = 1;
  headers =
      some (
        record { name = bytes (codes "content-range"); value = bytes (codes "bytes 5-9/20") } ∷ []);
  missing_count = 0;
}

abbrev five_to_nine : ContentRange
five_to_nine = record {
  first_byte_pos = 5;
  last_byte_pos = 9;
  complete_length = 20;
  has_range = true;
  has_complete_length = true;
}

partial_range : get_content_range partial ≡ some five_to_nine
unfolding get_content_range range_of_buffer range_of_value satisfied_range range_complete
    parse_unsigned unsigned_rounds find_header find_in trim_front text_equals_ignore_case
    same_ignore_case
partial_range = refl

get_content_range-IsRange_example : IsRange five_to_nine
get_content_range-IsRange_example = get_content_range-IsRange partial five_to_nine partial_range
