-- ===== src/Http/Transfer.antt =====
-- src/KernelHttpLib/http/HttpTransferCoding.cpp: which transfer codings a response announces.
-- DecodeResponseBody, which runs them, is not part of the model.
use win_kernel_http.Common.{
  ℕ, zero, suc, List, [], ◌∷◌, ◌+◌, ◌-◌, Bool, true, false, not, ◌&&◌, ◌||◌, ltb, leb, ◌==◌,
  if◌then◌else◌, length,
}
use Prim.Native.String.{String}
use win_kernel_http.Common.Buffer.{Bytes, bytes, contents}
use win_kernel_http.Common.Status.{
  Result, ok, err, ◌>>=◌, ◌>>◌, refuse, require, invalid_network_response, not_supported,
}
use win_kernel_http.Common.Text.{codes}
use win_kernel_http.Http.Text.{trim, until_comma, from_comma, text_equals_ignore_case}
use win_kernel_http.Http.Response.{HttpHeader}
use win_kernel_http.Http.Parser.Chars.{until_char, from_char, is_valid_header_name}
pub mod Slots
pub mod Announced
mod Examples

pub data TransferCodingKind : Type 0 where
  chunked gzip deflate compress : TransferCodingKind

abbrev pub is_chunked : TransferCodingKind → Bool
is_chunked chunked = true
is_chunked _ = false

abbrev pub max_transfer_codings : ℕ
max_transfer_codings = 4

pub record TransferCodingInfo : Type 0 where
  pub coding0 : TransferCodingKind
  pub coding1 : TransferCodingKind
  pub coding2 : TransferCodingKind
  pub coding3 : TransferCodingKind
  pub coding_count : ℕ
  pub has_transfer_encoding : Bool
  pub final_coding_is_chunked : Bool

-- `info = {}`
abbrev pub no_codings : TransferCodingInfo
no_codings = record {
  coding0 = chunked;
  coding1 = chunked;
  coding2 = chunked;
  coding3 = chunked;
  coding_count = 0;
  has_transfer_encoding = false;
  final_coding_is_chunked = false;
}

abbrev pub get_transfer_coding : TransferCodingInfo → ℕ → TransferCodingKind
get_transfer_coding info index =
    if index == 0
    then info.coding0
    else if index == 1
    then info.coding1
    else if index == 2
    then info.coding2
    else info.coding3

abbrev pub set_transfer_coding : TransferCodingInfo → ℕ → TransferCodingKind → TransferCodingInfo
set_transfer_coding info index coding =
    if index == 0
    then record info { coding0 = coding }
    else if index == 1
    then record info { coding1 = coding }
    else if index == 2
    then record info { coding2 = coding }
    else record info { coding3 = coding }

-- The loop that looks for a coding that is chunked below `count`.
abbrev pub has_chunked : TransferCodingInfo → ℕ → Bool
has_chunked info zero = false
has_chunked info (suc n) =
    let rest = has_chunked info n in if is_chunked (get_transfer_coding info n) then true else rest

unfoldable pub append_transfer_coding :
    TransferCodingKind → TransferCodingInfo → Result TransferCodingInfo
append_transfer_coding coding info = do
  refuse (leb max_transfer_codings info.coding_count) not_supported
  refuse (is_chunked coding && has_chunked info info.coding_count) invalid_network_response
  ok (record (set_transfer_coding info info.coding_count coding) {
    coding_count = info.coding_count + 1;
  })

abbrev same_text : Bytes → String → Bool
same_text token text = text_equals_ignore_case (bytes token) (bytes (codes text))

-- The coding that a token names.
unfoldable pub coding_of_token : Bytes → Result TransferCodingKind
unfolding text_equals_ignore_case
coding_of_token token =
    if same_text token "identity"
    then err invalid_network_response
    else if same_text token "br"
    then err not_supported
    else if same_text token "chunked"
    then ok chunked
    else if same_text token "gzip" || same_text token "x-gzip"
    then ok gzip
    else if same_text token "deflate"
    then ok deflate
    else if same_text token "compress" || same_text token "x-compress"
    then ok compress
    else err not_supported

-- `ParseTransferCodingToken`, which has a coding whenever it succeeds.
unfoldable pub parse_transfer_coding_token : Bytes → Result TransferCodingKind
unfolding coding_of_token trim
parse_transfer_coding_token text = do
  let member = trim text
  let token = trim (until_char b';' member)
  refuse (length member == 0) invalid_network_response
  require (is_valid_header_name token) invalid_network_response
  coding ← coding_of_token token
  require (length (from_char b';' member) == 0) invalid_network_response
  ok coding

-- The loop of `AppendTransferCodings` on the characters from `cursor` on. Each round but the last
-- passes a comma, so one round more than there are characters is enough.
unfoldable pub codings_rounds : ℕ → Bytes → TransferCodingInfo → Result TransferCodingInfo
unfolding parse_transfer_coding_token append_transfer_coding until_comma from_comma
codings_rounds zero rest info = ok info
codings_rounds (suc fuel) rest info = do
  coding ← parse_transfer_coding_token (until_comma rest)
  next ← append_transfer_coding coding info
  elim (from_comma rest) [ [] ↦ ok next | c ∷ text ↦ codings_rounds fuel text next ]

unfoldable pub append_transfer_codings : Bytes → TransferCodingInfo → Result TransferCodingInfo
unfolding codings_rounds
append_transfer_codings value info = codings_rounds (suc (length value)) value info

-- The loop of `Parse`: the codings, and whether there was such a header.
pub record Seen : Type 0 where
  pub info : TransferCodingInfo
  pub saw_header : Bool

unfoldable pub parse_rounds : List HttpHeader → Seen → Result Seen
unfolding append_transfer_codings
parse_rounds [] seen = ok seen
parse_rounds (h ∷ headers) seen =
    let rest = parse_rounds headers seen in
    if not (text_equals_ignore_case h.name (bytes (codes "Transfer-Encoding")))
    then rest
    else (append_transfer_codings (contents h.value) seen.info >>= λ info.
        parse_rounds headers (record { info = info; saw_header = true }))

-- The end of `Parse`.
abbrev pub finish_parse : Seen → Result TransferCodingInfo
finish_parse seen =
    if not seen.saw_header
    then ok seen.info
    else if seen.info.coding_count == 0
    then err invalid_network_response
    else ok (record seen.info {
      has_transfer_encoding = true;
      final_coding_is_chunked =
          is_chunked (get_transfer_coding seen.info (seen.info.coding_count - 1));
    })

-- `HttpTransferCoding::Parse`; after a failure the info is empty.
unfoldable pub parse_transfer_codings : List HttpHeader → Result TransferCodingInfo
unfolding parse_rounds
parse_transfer_codings headers =
    parse_rounds headers (record { info = no_codings; saw_header = false }) >>= finish_parse
