-- ===== src/Http/Parser/Fields/Validity.antt =====
-- The headers that ParseHeaders of src/KernelHttpLib/http/HttpParser.cpp stores.
use win_kernel_http.Common.{
  ℕ, zero, suc, List, [], ◌∷◌, ◌++◌, ◌+◌, ◌-◌, ◌≤◌, ◌<◌, ◌≡◌, ◌≢◌, ◌⊎◌, true, false, not, ◌&&◌,
  ◌||◌, ltb, ◌==◌, length, length-append, take, drop, arith, All, Option-cases, Bool-cases, inl,
  inr,
}
use win_kernel_http.Common.Buffer.{Bytes, contents}
use win_kernel_http.Common.Status.{ok, Result-cases}
use win_kernel_http.Http.Response.{HttpHeader}
use win_kernel_http.Http.Parser.Chars.{
  is_tchar, is_valid_header_name, is_valid_header_value, all_tchar,
}
use win_kernel_http.Http.Parser.Lines.{find_crlf}
use win_kernel_http.Http.Parser.Trailer.{line_name, line_value, line_header}
use win_kernel_http.Http.Parser.Fields.{
  parse_header_line, header_rounds, parse_headers, max_headers,
}

-- A character that a value may hold: a tab, or no control character.
abbrev pub IsText : ℕ → Type 0
IsText c = (c ≡ 9) ⊎ ((32 ≤ c) × (c ≢ 127))

pub record IsField (h : HttpHeader) : Type 0 where
  pub named : 1 ≤ length (contents h.name)
  pub token : All (λ c. is_tchar c ≡ true) (contents h.name)
  pub text : All IsText (contents h.value)

all_tchar-All : (name : Bytes) → all_tchar name ≡ true → All (λ c. is_tchar c ≡ true) name
all_tchar-All [] h = tt
all_tchar-All (c ∷ name) h = elim (Bool-cases (is_tchar c)) [
  | inl good ↦ (good, all_tchar-All name (rw good at h))
  | inr bad ↦ absurd (ground (arith, rw bad at h))
]

IsText-char : (c : ℕ) → (not (c == 9) && (ltb c 32 || c == 127)) ≡ false → IsText c
IsText-char c h = elim (Bool-cases (c == 9)) [
  | inl tab ↦ inl (ground arith)
  | inr other ↦ inr (ground arith, ground arith)
]

valid_value-All : (value : Bytes) → is_valid_header_value value ≡ true → All IsText value
valid_value-All [] h = tt
valid_value-All (c ∷ value) h = elim (Bool-cases (not (c == 9) && (ltb c 32 || c == 127))) [
  | inl bad ↦ absurd (ground (arith, rw bad at h))
  | inr good ↦ (IsText-char c good, valid_value-All value (rw good at h))
]

header_line-IsField :
    (line : Bytes) (capacity : ℕ) (headers : List HttpHeader) (h : HttpHeader)
    → parse_header_line line capacity headers ≡ ok h
    → IsField h × (length headers < capacity) × (length headers < max_headers)
unfolding parse_header_line
header_line-IsField line capacity headers h p =
    let name_valid : is_valid_header_name (line_name line) ≡ true = ground arith in
    let value_valid : is_valid_header_value (line_value line) ≡ true = ground arith in
    let same : ok (line_header line) ≡ ok h = ground arith in
    let e : line_header line ≡ h = cc same in
    (
      rw (← e) (record {
        named = ground arith;
        token = all_tchar-All (line_name line) (ground arith);
        text = valid_value-All (line_value line) value_valid;
      }),
      ground arith,
      ground arith,
    )

All-append_one :
    (headers : List HttpHeader) (h : HttpHeader)
    → All IsField headers
    → IsField h
    → All IsField (headers ++ (h ∷ []))
All-append_one [] h fields field = (field, tt)
All-append_one (g ∷ headers) h (first, fields) field =
    (first, All-append_one headers h fields field)

-- What the call stores.
pub record IsFields (headers : List HttpHeader) (capacity : ℕ) : Type 0 where
  pub fields : All IsField headers
  pub in_array : length headers ≤ capacity
  pub few : length headers ≤ max_headers

header_rounds-IsFields :
    (k : ℕ) (rest : Bytes) (cursor header_end capacity : ℕ) (headers result : List HttpHeader)
    → header_rounds k rest cursor header_end capacity headers ≡ ok result
    → IsFields headers capacity
    → IsFields result capacity
unfolding header_rounds
header_rounds-IsFields zero rest cursor header_end capacity headers result h f =
    let same : ok headers ≡ ok result = ground arith in
    let e : headers ≡ result = cc same in rw (← e) f
header_rounds-IsFields (suc k) rest cursor header_end capacity headers result h f =
    elim (Option-cases (find_crlf rest)) [
      | inl missing ↦
          let h' = rw (header_rounds, missing) at h in
          let same : ok headers ≡ ok result = ground arith in
          let e : headers ≡ result = cc same in rw (← e) f
      | inr (line_end, found) ↦
          let h' = rw (header_rounds, found) at h in
          elim (Result-cases (parse_header_line (take line_end rest) capacity headers)) [
            | inl (header, parsed) ↦
                let h'' = rw parsed at h' in
                let (field, free, fewer) =
                  header_line-IsField (take line_end rest) capacity headers header parsed in
                let one_more = length-append headers (header ∷ []) in
                let longer : IsFields (headers ++ (header ∷ [])) capacity = record {
                  fields = All-append_one headers header f.fields field;
                  in_array = omega arith;
                  few = omega arith;
                } in
                elim (Bool-cases (not (ltb cursor (header_end - 2)) || line_end == 0)) [
                  | inl over ↦
                      let same : ok headers ≡ ok result = ground arith in
                      let e : headers ≡ result = cc same in rw (← e) f
                  | inr line ↦
                      let next : header_rounds k (drop (line_end + 2) rest) (cursor + line_end + 2)
                            header_end capacity (headers ++ (header ∷ []))
                          ≡ ok result =
                        ground arith in
                      header_rounds-IsFields k (drop (line_end + 2) rest) (cursor + line_end + 2)
                        header_end capacity (headers ++ (header ∷ [])) result next longer
                ]
            | inr (status, refused) ↦
                let h'' = rw refused at h' in
                let same : ok headers ≡ ok result = ground arith in
                let e : headers ≡ result = cc same in rw (← e) f
          ]
    ]

-- On any data and bounds, each header of a call of `ParseHeaders` that succeeds has a name of at
-- least one character, all of them token characters, and a value in which each character is a tab
-- or no control character; and there are no more headers than the array holds, and no more than
-- 200.
pub parse_headers-IsFields :
    (data_ : Bytes) (header_start header_end capacity : ℕ) (headers : List HttpHeader)
    → parse_headers data_ header_start header_end capacity ≡ ok headers
    → IsFields headers capacity
unfolding parse_headers
parse_headers-IsFields data_ header_start header_end capacity headers h =
    let next : header_rounds (length data_) (drop header_start data_) header_start header_end
          capacity []
        ≡ ok headers =
      ground arith in
    header_rounds-IsFields (length data_) (drop header_start data_) header_start header_end capacity
      [] headers next (record { fields = tt; in_array = omega arith; few = omega arith })
