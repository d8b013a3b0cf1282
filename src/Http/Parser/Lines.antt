-- ===== src/Http/Parser/Lines.antt =====
-- The searches for line ends of src/KernelHttpLib/http/HttpParser.cpp.
use win_kernel_http.Common.{
  ℕ, suc, [], ◌∷◌, Bool, false, ◌&&◌, ◌==◌, if◌then◌else◌, Option, none, some,
}
use win_kernel_http.Common.Buffer.{Bytes}

-- A line end of the character and the next one.
abbrev pub starts_line_end : ℕ → Bytes → Bool
starts_line_end a [] = false
starts_line_end a (b ∷ text) = a == b'\r' && b == b'\n'

-- `FindCrlf` from a position on, as its distance from there.
unfoldable pub find_crlf : Bytes → Option ℕ
find_crlf [] = none
find_crlf (a ∷ text) =
    let rest = find_crlf text in
    if starts_line_end a text
    then some 0
    else elim rest [ none ↦ none | some index ↦ some (suc index) ]

-- `FindHeaderEnd`.
abbrev pub is_blank_line : Bytes → Bool
is_blank_line (a ∷ b ∷ c ∷ d ∷ text) = a == b'\r' && b == b'\n' && c == b'\r' && d == b'\n'
is_blank_line _ = false

unfoldable pub find_header_end : Bytes → Option ℕ
find_header_end [] = none
find_header_end (a ∷ text) =
    let rest = find_header_end text in
    if is_blank_line (a ∷ text)
    then some 4
    else elim rest [ none ↦ none | some index ↦ some (suc index) ]
