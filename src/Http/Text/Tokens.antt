-- ===== src/Http/Text/Tokens.antt =====
-- What HeaderValueHasToken of src/KernelHttpLib/http/HttpTypes.cpp decides.
use win_kernel_http.Common.{
  ℕ, zero, suc, List, [], ◌∷◌, ◌++◌, ◌+◌, ◌≤◌, ◌<◌, ◌≡◌, refl, ap, ◌∙◌, ◌⊎◌, inl, inr, Bool, true,
  false, not, ◌&&◌, ◌||◌, ◌==◌, length, take, arith, Bool-cases, take-length,
}
use win_kernel_http.Common.Buffer.{Bytes, bytes, byte_at}
use win_kernel_http.Http.Text.{
  is_whitespace, is_token_boundary, trim_front, trimmed_length, trim, text_equals_ignore_case,
  until_comma, from_comma, skip_boundaries, scan_tokens, header_value_has_token,
}
use win_kernel_http.Http.Text.Elements.{
  elements, behind_comma, elements-from_comma, length-from_comma,
}
use win_kernel_http.Http.Text.Trim.{trim-whitespace, trim-append_whitespace}

-- One of the elements, trimmed, is the token but for the case of letters.
abbrev pub has_element : List Bytes → Bytes → Bool
has_element [] token = false
has_element (item ∷ items) token =
    text_equals_ignore_case (bytes (trim item)) (bytes token) || has_element items token

-- An empty element is no token.
empty_element :
    (token : Bytes)
    → 1 ≤ length token
    → text_equals_ignore_case (bytes (trim [])) (bytes token) ≡ false
unfolding text_equals_ignore_case trim trim_front trimmed_length
empty_element [] h = absurd (omega arith)
empty_element (t ∷ token) h = ground arith

-- A boundary in front of a list adds no element that counts.
has_element-boundary :
    (c : ℕ) (text token : Bytes)
    → is_token_boundary c ≡ true
    → 1 ≤ length token
    → has_element (elements (c ∷ text)) token ≡ has_element (elements text) token
has_element-boundary c text token b h =
    ground
      (arith, elements-from_comma text, empty_element token h, trim-whitespace c (until_comma text))

has_element-skip_boundaries :
    (text token : Bytes)
    → 1 ≤ length token
    → has_element (elements (skip_boundaries text)) token ≡ has_element (elements text) token
unfolding skip_boundaries
has_element-skip_boundaries [] token h = refl
has_element-skip_boundaries (c ∷ text) token h = elim (Bool-cases (is_token_boundary c)) [
  | inl b ↦
      ground
        (arith, has_element-boundary c text token b h, has_element-skip_boundaries text token h)
  | inr b ↦ ground arith
]

-- The scan resumes on a comma, or at the end.
has_element-from_comma :
    (text token : Bytes)
    → 1 ≤ length token
    → has_element (elements (from_comma text)) token
      ≡ has_element (behind_comma (from_comma text)) token
unfolding from_comma
has_element-from_comma [] token h = ground (arith, empty_element token h)
has_element-from_comma (c ∷ text) token h = elim (Bool-cases (c == b',')) [
  | inl comma ↦ ground (arith, has_element-boundary c text token (ground arith) h)
  | inr other ↦ ground (arith, has_element-from_comma text token h)
]

-- A round leaves less to scan.
length-skip_boundaries :
    (text : Bytes) → length (from_comma (skip_boundaries text)) + 1 ≤ length text + 1
unfolding skip_boundaries from_comma
length-skip_boundaries [] = omega arith
length-skip_boundaries (c ∷ text) =
    ground (arith, length-skip_boundaries text, length-from_comma text)

shorter_round :
    (c : ℕ) (text : Bytes) → length (from_comma (skip_boundaries (c ∷ text))) ≤ length text
unfolding skip_boundaries from_comma
shorter_round c text = ground (arith, length-skip_boundaries text, length-from_comma text)

scan_tokens-has_element :
    (fuel : ℕ) (text token : Bytes)
    → 1 ≤ length token
    → length text ≤ fuel
    → scan_tokens fuel text token ≡ has_element (elements text) token
unfolding scan_tokens
scan_tokens-has_element zero [] token h f = ground (arith, empty_element token h)
scan_tokens-has_element zero (c ∷ text) token h f = absurd (omega arith)
scan_tokens-has_element (suc fuel) [] token h f = ground (arith, empty_element token h)
scan_tokens-has_element (suc fuel) (c ∷ text) token h f =
    let rest = skip_boundaries (c ∷ text) in
    ground (
      arith,
      has_element-skip_boundaries (c ∷ text) token h,
      elements-from_comma rest,
      has_element-from_comma rest token h,
      scan_tokens-has_element fuel (from_comma rest) token h (omega (arith, shorter_round c text)),
    )

-- Whitespace around the list changes no element once it is trimmed.
has_element-trim_front :
    (text token : Bytes)
    → 1 ≤ length token
    → has_element (elements (trim_front text)) token ≡ has_element (elements text) token
unfolding trim_front
has_element-trim_front [] token h = refl
has_element-trim_front (c ∷ text) token h = elim (Bool-cases (is_whitespace c)) [
  | inl b ↦ ground (
    arith,
    has_element-boundary c text token (ground arith) h,
    has_element-trim_front text token h,
  )
  | inr b ↦ ground arith
]

-- The first element and the others, with whitespace `c` behind the text.
record IsExtended (c : ℕ) (token text : Bytes) : Type 0 where
  first :
      (until_comma (text ++ (c ∷ [])) ≡ until_comma text)
      ⊎ (until_comma (text ++ (c ∷ [])) ≡ until_comma text ++ (c ∷ []))
  others :
      has_element (behind_comma (from_comma (text ++ (c ∷ [])))) token
      ≡ has_element (behind_comma (from_comma text)) token

module _ (c : ℕ) (token : Bytes) (w : is_whitespace c ≡ true) where
  IsExtended-has_element :
      (text : Bytes)
      → IsExtended c token text
      → has_element (elements (text ++ (c ∷ []))) token ≡ has_element (elements text) token
  IsExtended-has_element text e = elim e.first [
    | inl same ↦
        ground (arith, e.others, elements-from_comma text, elements-from_comma (text ++ (c ∷ [])))
    | inr longer ↦ ground (
      arith,
      e.others,
      elements-from_comma text,
      elements-from_comma (text ++ (c ∷ [])),
      trim-append_whitespace (until_comma text) c w,
    )
  ]

  extended : (text : Bytes) → IsExtended c token text
  unfolding until_comma from_comma
  extended [] = record { first = inr (ground arith); others = ground arith }
  extended (b ∷ text) =
      let behind = extended text in
      elim (Bool-cases (b == b',')) [
        | inl comma ↦ record {
          first = inl (ground arith);
          others = ground (arith, IsExtended-has_element text behind);
        }
        | inr other ↦ record {
          first = ground (arith, behind.first);
          others = ground (arith, behind.others);
        }
      ]

trim_end_step :
    (text : Bytes) (n : ℕ)
    → n < length text
    → take (suc n) text ≡ take n text ++ (byte_at text n ∷ [])
trim_end_step [] n h = absurd (omega arith)
trim_end_step (b ∷ text) zero h = refl
trim_end_step (b ∷ text) (suc n) h = ap (◌∷◌ b) (trim_end_step text n (omega arith))

has_element-trimmed_length :
    (text : Bytes) (n : ℕ) (token : Bytes)
    → n ≤ length text
    → has_element (elements (take (trimmed_length text n) text)) token
      ≡ has_element (elements (take n text)) token
unfolding trimmed_length
has_element-trimmed_length text zero token h = refl
has_element-trimmed_length text (suc n) token h =
    elim (Bool-cases (is_whitespace (byte_at text n))) [
      | inl w ↦ ground (
        arith,
        trim_end_step text n (omega arith),
        IsExtended-has_element (byte_at text n) token w (take n text)
            (extended (byte_at text n) token w (take n text)),
        has_element-trimmed_length text n token (omega arith),
      )
      | inr w ↦ ground arith
    ]

-- A header value has a token exactly where the token is not empty and one of the comma-separated
-- elements of the value, whitespace around it left away, is the token but for the case of ASCII
-- letters.
pub header_value_has_token_lem :
    (value token : Bytes)
    → header_value_has_token (bytes value) (bytes token)
      ≡ (not (length token == 0) && has_element (elements value) token)
unfolding header_value_has_token trim
header_value_has_token_lem value [] = refl
header_value_has_token_lem value (t ∷ token) =
    let rest = trim_front value in
    let scan =
      scan_tokens-has_element (length (trim value)) (trim value) (t ∷ token) (omega arith)
        (omega arith)
      ∙ has_element-trimmed_length rest (length rest) (t ∷ token) (omega arith)
      ∙ ap (λ x. has_element (elements x) (t ∷ token)) (take-length rest)
      ∙ has_element-trim_front value (t ∷ token) (omega arith) in
    ground (arith, scan)
