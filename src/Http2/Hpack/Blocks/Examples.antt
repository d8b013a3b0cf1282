-- ===== src/Http2/Hpack/Blocks/Examples.antt =====
-- Header blocks of RFC 7541, appendix C, for src/KernelHttpLib/http2/Hpack.cpp.
use win_kernel_http.Common.{
  ◌+◌, ◌*◌, List, [], ◌∷◌, ◌≤◌, ◌≡◌, refl, true, false, none, some, length, arith,
}
use win_kernel_http.Common.Buffer.{Bytes}
use win_kernel_http.Common.Status.{ok}
use win_kernel_http.Common.Text.{codes}
use win_kernel_http.Http2.Hpack.Table.{
  Field, lookup, insert, evict_while, make_data_room, make_entry_room, store,
}
use win_kernel_http.Http2.Hpack.Table.Run.{fresh_table}
use win_kernel_http.Http2.Hpack.Decoder.{
  Progress, start_of, HpackDecoder, initialize_decoder, decode, decode_rounds, decode_as,
  representation, take_piece, insert_and_emit, emit_header, insert_piece, place_piece, materialize,
  read_indexed, read_literal, read_name, name_at, indexed_field, table_entry,
}
use win_kernel_http.Http2.Hpack.StaticTable.{static_table}
use win_kernel_http.Http2.Hpack.Names.{
  range_fits, add_header_list_size, multiply_size, name_equals, same_names, value_equals,
  same_values, is_sensitive_header_name,
}
use win_kernel_http.Http2.Hpack.Strings.{
  read_integer, read_string, string_bytes, encode_header_string,
}
use win_kernel_http.Http2.Hpack.Integer.{decode_integer, decode_rest, encode_integer, encode_rest}
use win_kernel_http.Http2.Hpack.Huffman.{
  huffman_symbol, candidates, find_among, find_huffman_symbol, total_bits, huffman_encoded_length,
  huffman_encode, put_bit, put_code, put_symbols, finish_encoding, huffman_decode, emit, take_bit,
  take_byte, take_bytes, finish_decoding,
}
use win_kernel_http.Http2.Hpack.Blocks.Rounds.{always}
use win_kernel_http.Http2.Hpack.Encoder.{
  HpackEncoder, initialize_encoder, encode, find_match, encode_behind, encode_size_update,
  encode_rounds, encode_header, encode_matched, encode_literal, encode_name, match_static,
  match_dynamic, match_entry, index_header,
}
use win_kernel_http.Http2.Hpack.Blocks.Names.{IsHeader}
use win_kernel_http.Http2.Hpack.Blocks.Matching.{IsMatch, find_match-IsMatch}
use win_kernel_http.Http2.Hpack.Blocks.Delivery.{header_list_size_of}
use win_kernel_http.Http2.Hpack.Blocks.Bounds.{decode_bounds, decode_rounds_end}
use win_kernel_http.Http2.Hpack.Blocks.Connection.{
  Exchange, Limits, IsExchange, exchange_all, sent_headers, connection_round_trip,
}

-- A header whose name is in the static table in lower case, and one that is new.
abbrev age : Field
age = record { name = 0x41 ∷ 0x67 ∷ 0x65 ∷ []; value = 0x37 ∷ [] }

abbrev new_header : Field
new_header = record { name = 0x78 ∷ 0x2d ∷ 0x61 ∷ []; value = 0x7f ∷ 0xff ∷ [] }

age-IsHeader : IsHeader age
age-IsHeader = record {
  named = omega arith;
  name_bytes = (omega arith, (omega arith, (omega arith, tt)));
  value_bytes = (omega arith, tt);
  small = omega arith;
}

new_header-IsHeader : IsHeader new_header
new_header-IsHeader = record {
  named = omega arith;
  name_bytes = (omega arith, (omega arith, (omega arith, tt)));
  value_bytes = (omega arith, (omega arith, tt));
  small = omega arith;
}

abbrev limits : Limits
limits = record { space = 100; header_capacity = 2; capacity = 18; max_header_list_size = 100 }

-- The same headers twice, where the table shrinks in between.
abbrev first_exchange : Exchange
first_exchange = record { resize = none; headers = age ∷ new_header ∷ [] }

abbrev second_exchange : Exchange
second_exchange = record { resize = some 64; headers = new_header ∷ age ∷ [] }

abbrev exchanges : List Exchange
exchanges = first_exchange ∷ second_exchange ∷ []

abbrev some_encoder : HpackEncoder
some_encoder = record {
  table = fresh_table 0;
  max_table_size = 0;
  pending_table_size = 0;
  table_size_update_pending = true;
}

abbrev some_decoder : HpackDecoder
some_decoder = record { table = fresh_table 0; max_table_size = 0 }

first_exchange-IsExchange : IsExchange limits 4096 first_exchange
first_exchange-IsExchange = record {
  admitted = tt;
  fine = (age-IsHeader, (new_header-IsHeader, tt));
  fits = omega arith;
  room = omega arith;
  listed = omega arith;
  count = omega arith;
}

second_exchange-IsExchange : IsExchange limits 4096 second_exchange
second_exchange-IsExchange = record {
  admitted = omega arith;
  fine = (new_header-IsHeader, (age-IsHeader, tt));
  fits = omega arith;
  room = omega arith;
  listed = omega arith;
  count = omega arith;
}

connection_round_trip_example :
    (e1 : HpackEncoder) × (d1 : HpackDecoder) × (initialize_encoder true true 4096 some_encoder
      ≡ ok e1)
    × (initialize_decoder true true 4096 some_decoder ≡ ok d1)
    × (exchange_all limits exchanges e1 d1 ≡ sent_headers exchanges)
connection_round_trip_example =
    connection_round_trip limits (omega arith) (omega arith) some_encoder some_decoder 4096
      exchanges (omega arith) (omega arith)
      (first_exchange-IsExchange, (second_exchange-IsExchange, tt))

find_match-IsMatch_example : IsMatch (fresh_table 4096) age (find_match (fresh_table 4096) age)
find_match-IsMatch_example = find_match-IsMatch (fresh_table 4096) age

-- The first request of appendix C.4.
abbrev field : Bytes → Bytes → Field
field name value = record { name = name; value = value }

abbrev request : List Field
request =
    field (codes ":method") (codes "GET")
    ∷ field (codes ":scheme") (codes "http")
    ∷ field (codes ":path") (codes "/")
    ∷ field (codes ":authority") (codes "www.example.com")
    ∷ []

abbrev request_block : Bytes
request_block =
    0x82 ∷ 0x86 ∷ 0x84 ∷ 0x41 ∷ 0x8c ∷ 0xf1 ∷ 0xe3 ∷ 0xc2 ∷ 0xe5 ∷ 0xf2 ∷ 0x3a ∷ 0x6b ∷ 0xa0 ∷ 0xab
    ∷ 0x90 ∷ 0xf4 ∷ 0xff ∷ []

abbrev ready_decoder : HpackDecoder
ready_decoder = record { table = fresh_table 4096; max_table_size = 4096 }

abbrev ready_encoder : HpackEncoder
ready_encoder = record {
  table = fresh_table 4096;
  max_table_size = 4096;
  pending_table_size = 4096;
  table_size_update_pending = false;
}

request_decoded : (decode always ready_decoder request_block 4 64 1000).1 ≡ ok (request, 52)
unfolding decode decode_rounds decode_as representation take_piece insert_and_emit emit_header
    insert_piece place_piece materialize range_fits add_header_list_size read_indexed read_literal
    read_name name_at indexed_field table_entry static_table read_integer decode_integer decode_rest
    read_string string_bytes multiply_size huffman_decode take_bytes take_byte take_bit emit
    finish_decoding find_huffman_symbol find_among candidates huffman_symbol insert evict_while
    make_data_room make_entry_room store
request_decoded = refl

request_encoded : (encode always ready_encoder request 64).1 ≡ ok request_block
unfolding encode encode_behind encode_size_update encode_rounds encode_header encode_matched
    encode_literal encode_name encode_header_string encode_integer encode_rest find_match
    match_static match_dynamic match_entry name_equals same_names value_equals same_values
    is_sensitive_header_name static_table lookup huffman_encoded_length total_bits huffman_encode
    put_symbols put_code put_bit finish_encoding huffman_symbol index_header insert
request_encoded = refl

decode_bounds_example :
    (length request ≤ 4)
    × (52 ≤ 64)
    × (header_list_size_of request ≡ 52 + 32 * length request)
    × (header_list_size_of request ≤ 1000)
decode_bounds_example =
    decode_bounds always ready_decoder request_block 4 64 1000 request 52 (omega arith)
      request_decoded

abbrev method_read : Progress
method_read = record {
  headers = field (codes ":method") (codes "GET") ∷ [];
  nv_offset = 10;
  header_list_size = 42;
  allow_table_size_update = false;
  behind = [];
}

method_decoded :
    decode_rounds always 4096 4 64 1000 2 (fresh_table 4096) (start_of (0x82 ∷ []))
    ≡ (fresh_table 4096, ok method_read)
unfolding decode_rounds decode_as representation take_piece insert_and_emit emit_header insert_piece
    place_piece materialize range_fits add_header_list_size read_indexed indexed_field table_entry
    static_table read_integer decode_integer
method_decoded = refl

decode_rounds_end_example : method_read.behind ≡ []
decode_rounds_end_example =
    decode_rounds_end always 4096 4 64 1000 2 (fresh_table 4096) (0x82 ∷ []) (fresh_table 4096)
      method_read (omega arith) (omega arith) method_decoded
