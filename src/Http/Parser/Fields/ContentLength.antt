-- ===== src/Http/Parser/Fields/ContentLength.antt =====
-- ReadContentLength of src/KernelHttpLib/http/HttpParser.cpp against the list of values that the
-- Content-Length headers have.
use win_kernel_http.Common.{
  ℕ, List, [], ◌∷◌, ◌≡◌, refl, ◌||◌, ◌==◌, if◌then◌else◌, Option, none, some, length, arith,
  Bool-cases, inl, inr,
}
use win_kernel_http.Common.Buffer.{Bytes, contents}
use win_kernel_http.Common.Status.{Result, ok, err, ◌>>=◌, invalid_network_response, Result-cases}
use win_kernel_http.Http.Text.{trim}
use win_kernel_http.Http.Response.{HttpHeader}
use win_kernel_http.Http.Parser.Chars.{contains_char}
use win_kernel_http.Http.Parser.Number.{parse_size}
use win_kernel_http.Http.Parser.Fields.{
  is_content_length, content_length_of, content_length_rounds, read_content_length,
}

-- The values of the Content-Length headers, in order.
abbrev pub content_lengths : List HttpHeader → List Bytes
content_lengths [] = []
content_lengths (h ∷ headers) =
    if is_content_length h
    then contents h.value ∷ content_lengths headers
    else content_lengths headers

-- One value: not empty, no list, and a number.
abbrev pub one_length : Bytes → Result ℕ
one_length value =
    if length (trim value) == 0 || contains_char (trim value) b','
    then err invalid_network_response
    else parse_size (trim value)

-- At most one such header.
abbrev pub lengths_verdict : List Bytes → Result (Option ℕ)
lengths_verdict [] = ok none
lengths_verdict (value ∷ []) = one_length value >>= λ n. ok (some n)
lengths_verdict (value ∷ (other ∷ values)) = one_length value >>= λ n. err invalid_network_response

first_length : (h : HttpHeader) → content_length_of h none ≡ one_length (contents h.value)
unfolding content_length_of
first_length h = ground arith

second_length :
    (h : HttpHeader) (n : ℕ) → content_length_of h (some n) ≡ err invalid_network_response
unfolding content_length_of
second_length h n = ground arith

-- Behind the first one, any other is refused.
abbrev others_verdict : ℕ → List Bytes → Result (Option ℕ)
others_verdict n [] = ok (some n)
others_verdict n (value ∷ values) = err invalid_network_response

others_lem :
    (headers : List HttpHeader) (n : ℕ)
    → content_length_rounds headers (some n) ≡ others_verdict n (content_lengths headers)
unfolding content_length_rounds
others_lem [] n = refl
others_lem (h ∷ headers) n = elim (Bool-cases (is_content_length h)) [
  | inl same ↦ rw (same, second_length h n) refl
  | inr other ↦ rw other (others_lem headers n)
]

verdict-others :
    (value : Bytes) (values : List Bytes)
    → lengths_verdict (value ∷ values) ≡ (one_length value >>= λ n. others_verdict n values)
verdict-others value [] = refl
verdict-others value (other ∷ values) = refl

-- On any headers, `ReadContentLength` does what the values of the Content-Length headers call for:
-- without one it finds none, a single one is read as a number unless it is empty or a list, and
-- behind a first value that is a number any second one is refused.
pub read_content_length_lem :
    (headers : List HttpHeader)
    → read_content_length headers ≡ lengths_verdict (content_lengths headers)
unfolding content_length_rounds
read_content_length_lem [] = refl
read_content_length_lem (h ∷ headers) = elim (Bool-cases (is_content_length h)) [
  | inl same ↦ elim (Result-cases (one_length (contents h.value))) [
    | inl (n, parsed) ↦
        rw
          (
            same,
            first_length h,
            verdict-others (contents h.value) (content_lengths headers),
            parsed,
          )
          (others_lem headers n)
    | inr (status, refused) ↦
        rw
          (
            same,
            first_length h,
            verdict-others (contents h.value) (content_lengths headers),
            refused,
          )
          refl
  ]
  | inr other ↦ rw other (read_content_length_lem headers)
]
