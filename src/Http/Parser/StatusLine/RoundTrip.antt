-- ===== src/Http/Parser/StatusLine/RoundTrip.antt =====
-- Status lines that ParseStatusLine of src/KernelHttpLib/http/HttpParser.cpp takes.
use win_kernel_http.Common.{
  ℕ, [], ◌∷◌, ◌++◌, ◌+◌, ◌/◌, ◌%◌, ◌≤◌, ◌≡◌, refl, true, false, ◌==◌, arith,
}
use win_kernel_http.Common.Buffer.{Bytes}
use win_kernel_http.Common.Status.{ok}
use win_kernel_http.Common.Text.{codes}
use win_kernel_http.Http.Parser.Chars.{is_digit}
use win_kernel_http.Http.Parser.Number.{parse_uint16}
use win_kernel_http.Http.Parser.StatusLine.{parse_status_line, version_number}

-- A status line with a reason phrase.
abbrev pub status_line : ℕ → ℕ → Bytes → Bytes
status_line minor code phrase =
    codes "HTTP/1."
    ++ ((48 + minor)
        ∷ (32 ∷ ((48 + code / 100) ∷ ((48 + code / 10 % 10) ∷ ((48 + code % 10) ∷ (32 ∷ phrase))))))

parse_uint16-digit : (n : ℕ) → n ≤ 9 → parse_uint16 ((48 + n) ∷ []) ≡ ok n
unfolding parse_uint16
parse_uint16-digit n h = ground arith

parse_uint16-code :
    (code : ℕ)
    → code ≤ 999
    → parse_uint16 ((48 + code / 100) ∷ ((48 + code / 10 % 10) ∷ ((48 + code % 10) ∷ []))) ≡ ok code
unfolding parse_uint16
parse_uint16-code code h = ground arith

version_number-digit :
    (n separator : ℕ) (text : Bytes)
    → n ≤ 9
    → is_digit separator ≡ false
    → version_number separator ((48 + n) ∷ (separator ∷ text)) ≡ ok n
unfolding version_number
version_number-digit n separator text h s =
    let digit : is_digit (48 + n) ≡ true = ground arith in
    rw (digit, s, parse_uint16-digit n h) (ground arith)

-- For a minor version of 0 or 1, a code from 100 to 599 and any reason phrase, `ParseStatusLine`
-- takes the line of HTTP/1 with these apart into them.
pub status_line_round_trip :
    (minor code : ℕ) (phrase : Bytes)
    → minor ≤ 1
    → 100 ≤ code
    → code ≤ 599
    → parse_status_line (status_line minor code phrase)
      ≡ ok (record {
        major_version = 1;
        minor_version = minor;
        status_code = code;
        reason_phrase = phrase;
      })
unfolding parse_status_line
status_line_round_trip minor code phrase m low high =
    let behind = (48 + code / 100) ∷ ((48 + code / 10 % 10) ∷ ((48 + code % 10) ∷ (32 ∷ phrase))) in
    let digit : is_digit (48 + minor) ≡ true = ground arith in
    let no_space : ((48 + code / 100) == 32) ≡ false = ground arith in
    rw
      (
        version_number-digit 1 46 ((48 + minor) ∷ (32 ∷ behind)) (omega arith) refl,
        version_number-digit minor 32 behind (omega arith) refl,
        digit,
        no_space,
        parse_uint16-code code (omega arith),
      )
      (ground arith)
