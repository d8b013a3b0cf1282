-- ===== src/Http/Transfer/Announced.antt =====
-- The codings that Parse of src/KernelHttpLib/http/HttpTransferCoding.cpp finds are those of the
-- comma-separated elements of all Transfer-Encoding headers.
use win_kernel_http.Common.{
  ℕ, zero, suc, List, [], ◌∷◌, ◌++◌, ◌-◌, ◌≤◌, ◌<◌, ◌≡◌, refl, sym, ap, ◌∙◌, Bool, true, false,
  ◌&&◌, ◌||◌, ◌==◌, if◌then◌else◌, length, arith, Bool-cases, inl, inr,
}
use win_kernel_http.Common.Buffer.{Bytes, bytes, contents}
use win_kernel_http.Common.Status.{Result, ok, ◌>>=◌, Result-cases}
use win_kernel_http.Common.Text.{codes}
use win_kernel_http.Http.Text.{until_comma, from_comma, text_equals_ignore_case}
use win_kernel_http.Http.Text.Elements.{
  elements, behind_comma, elements-from_comma, length-from_comma,
}
use win_kernel_http.Http.Response.{HttpHeader}
use win_kernel_http.Http.Transfer.{
  TransferCodingKind, TransferCodingInfo, is_chunked, get_transfer_coding, append_transfer_coding,
  parse_transfer_coding_token, codings_rounds, append_transfer_codings, parse_rounds, finish_parse,
  parse_transfer_codings, no_codings,
}
use win_kernel_http.Http.Transfer.Slots.{IsCodings, append-IsCodings, appended, chunked_count}

-- The codings of the elements, appended one after another.
abbrev pub append_elements : List Bytes → TransferCodingInfo → Result TransferCodingInfo
append_elements [] info = ok info
append_elements (member ∷ members) info = do
  coding ← parse_transfer_coding_token member
  next ← append_transfer_coding coding info
  append_elements members next

behind_lem :
    (fuel : ℕ)
    → ((text : Bytes) (info : TransferCodingInfo)
        → length text < fuel
        → codings_rounds fuel text info ≡ append_elements (elements text) info)
    → (behind : Bytes) (next : TransferCodingInfo) → length behind ≤ fuel
    → (elim behind [ [] ↦ ok next | c ∷ text ↦ codings_rounds fuel text next ])
      ≡ append_elements (behind_comma behind) next
behind_lem fuel more [] next h = refl
behind_lem fuel more (c ∷ text) next h = more text next (omega arith)

codings_rounds_lem :
    (fuel : ℕ) (rest : Bytes) (info : TransferCodingInfo)
    → length rest < fuel
    → codings_rounds fuel rest info ≡ append_elements (elements rest) info
unfolding codings_rounds
codings_rounds_lem zero rest info h = absurd (omega arith)
codings_rounds_lem (suc fuel) rest info h =
    let behind = behind_lem fuel (codings_rounds_lem fuel) (from_comma rest) in
    let shorter = length-from_comma rest in
    rw (elements-from_comma rest)
      (elim (Result-cases (parse_transfer_coding_token (until_comma rest))) [
        | inr (status, refused) ↦ rw refused refl
        | inl (coding, parsed) ↦ elim (Result-cases (append_transfer_coding coding info)) [
          | inr (status, refused) ↦ rw (parsed, refused) refl
          | inl (next, appended) ↦ rw (parsed, appended) (behind next (omega arith))
        ]
      ])

append_elements-IsCodings :
    (members : List Bytes) (info result : TransferCodingInfo)
    → append_elements members info ≡ ok result
    → IsCodings info
    → IsCodings result
append_elements-IsCodings [] info result h v = let e : info ≡ result = cc h in rw (← e) v
append_elements-IsCodings (member ∷ members) info result h v =
    elim (Result-cases (parse_transfer_coding_token member)) [
      | inr (status, refused) ↦ absurd (ground (arith, rw refused at h))
      | inl (coding, parsed) ↦ elim (Result-cases (append_transfer_coding coding info)) [
        | inr (status, refused) ↦ absurd (ground (arith, rw (parsed, refused) at h))
        | inl (next, appended) ↦
            append_elements-IsCodings members next result (rw (parsed, appended) at h)
              (append-IsCodings coding info next appended v)
      ]
    ]

-- The elements of all Transfer-Encoding headers, in order.
abbrev pub is_transfer_encoding : HttpHeader → Bool
is_transfer_encoding h = text_equals_ignore_case h.name (bytes (codes "Transfer-Encoding"))

abbrev pub members_of : List HttpHeader → List Bytes
members_of [] = []
members_of (h ∷ headers) =
    if is_transfer_encoding h
    then elements (contents h.value) ++ members_of headers
    else members_of headers

append_elements-append :
    (left right : List Bytes) (info : TransferCodingInfo)
    → append_elements (left ++ right) info ≡ (append_elements left info >>= append_elements right)
append_elements-append [] right info = refl
append_elements-append (member ∷ left) right info =
    elim (Result-cases (parse_transfer_coding_token member)) [
      | inr (status, refused) ↦ rw refused refl
      | inl (coding, parsed) ↦ elim (Result-cases (append_transfer_coding coding info)) [
        | inr (status, refused) ↦ rw (parsed, refused) refl
        | inl (next, appended) ↦ rw (parsed, appended) (append_elements-append left right next)
      ]
    ]

value_lem :
    (value : Bytes) (info : TransferCodingInfo)
    → append_transfer_codings value info ≡ append_elements (elements value) info
unfolding append_transfer_codings
value_lem value info = codings_rounds_lem (suc (length value)) value info (omega arith)

abbrev pub any_transfer_encoding : List HttpHeader → Bool
any_transfer_encoding [] = false
any_transfer_encoding (h ∷ headers) = is_transfer_encoding h || any_transfer_encoding headers

or_false : (b : Bool) → (b || false) ≡ b
or_false true = refl
or_false false = refl

or_true : (b : Bool) → (b || true) ≡ true
or_true true = refl
or_true false = refl

parse_rounds_lem :
    (headers : List HttpHeader) (info : TransferCodingInfo) (saw : Bool)
    → parse_rounds headers (record { info = info; saw_header = saw }) ≡ (
        append_elements (members_of headers) info >>= λ result.
        ok (record { info = result; saw_header = saw || any_transfer_encoding headers }))
unfolding parse_rounds
parse_rounds_lem [] info saw = rw (or_false saw) refl
parse_rounds_lem (h ∷ headers) info saw = elim (Bool-cases (is_transfer_encoding h)) [
  | inr other ↦ rw other (parse_rounds_lem headers info saw)
  | inl same ↦
      rw
        (
          same,
          value_lem (contents h.value) info,
          append_elements-append (elements (contents h.value)) (members_of headers) info,
        )
        (elim (Result-cases (append_elements (elements (contents h.value)) info)) [
          | inr (status, refused) ↦ rw refused refl
          | inl (next, appended) ↦ rw (appended, or_true saw) (parse_rounds_lem headers next true)
        ])
]

-- The flags play no part in the appending.
IsUnflagged-append :
    (coding : TransferCodingKind) (info next : TransferCodingInfo)
    → append_transfer_coding coding info ≡ ok next
    → info.has_transfer_encoding ≡ false
    → info.final_coding_is_chunked ≡ false
    → (next.has_transfer_encoding ≡ false) × (next.final_coding_is_chunked ≡ false)
unfolding append_transfer_coding
IsUnflagged-append coding info next h a b =
    let same : ok (appended coding info) ≡ ok next = ground arith in
    let e : appended coding info ≡ next = cc same in rw (← e) (ground arith, ground arith)

append_elements-unflagged :
    (members : List Bytes) (info result : TransferCodingInfo)
    → append_elements members info ≡ ok result
    → info.has_transfer_encoding ≡ false
    → info.final_coding_is_chunked ≡ false
    → (result.has_transfer_encoding ≡ false) × (result.final_coding_is_chunked ≡ false)
append_elements-unflagged [] info result h a b = let e : info ≡ result = cc h in rw (← e) (a, b)
append_elements-unflagged (member ∷ members) info result h a b =
    elim (Result-cases (parse_transfer_coding_token member)) [
      | inr (status, refused) ↦ absurd (ground (arith, rw refused at h))
      | inl (coding, parsed) ↦ elim (Result-cases (append_transfer_coding coding info)) [
        | inr (status, refused) ↦ absurd (ground (arith, rw (parsed, refused) at h))
        | inl (next, appended) ↦
            let (c, d) = IsUnflagged-append coding info next appended a b in
            append_elements-unflagged members next result (rw (parsed, appended) at h) c d
      ]
    ]

-- What `Parse` finds.
pub record IsAnnounced (info : TransferCodingInfo) (headers : List HttpHeader) : Type 0 where
  pub in_order :
      append_elements (members_of headers) no_codings
      ≡ ok (record info { has_transfer_encoding = false; final_coding_is_chunked = false })
  pub few : info.coding_count ≤ 4
  pub chunked_once : chunked_count info info.coding_count ≤ 1
  pub announced : info.has_transfer_encoding ≡ any_transfer_encoding headers
  pub some_coding : any_transfer_encoding headers ≡ true → 1 ≤ info.coding_count
  pub last_coding : info.final_coding_is_chunked ≡ (
      any_transfer_encoding headers
      && is_chunked (get_transfer_coding info (info.coding_count - 1)))

unflagged_lem :
    (info : TransferCodingInfo)
    → info.has_transfer_encoding ≡ false
    → info.final_coding_is_chunked ≡ false
    → info ≡ (record info { has_transfer_encoding = false; final_coding_is_chunked = false })
unflagged_lem info a b i = record info {
  has_transfer_encoding = a i;
  final_coding_is_chunked = b i;
}

announced_lem :
    (headers : List HttpHeader) (result info : TransferCodingInfo)
    → append_elements (members_of headers) no_codings ≡ ok result
    → IsCodings result
    → result ≡ (record result { has_transfer_encoding = false; final_coding_is_chunked = false })
    → finish_parse (record { info = result; saw_header = any_transfer_encoding headers }) ≡ ok info
    → IsAnnounced info headers
announced_lem headers result info appended v plain h =
    elim (Bool-cases (any_transfer_encoding headers)) [
      | inr absent ↦
          let same : ok result ≡ ok info = ground arith in
          let e : result ≡ info = cc same in
          rw (← e) (record {
            in_order = appended ∙ ap ok plain;
            few = v.few;
            chunked_once = v.chunked_once;
            announced = rw absent (ap TransferCodingInfo.has_transfer_encoding plain);
            some_coding = λ present. absurd (ground arith);
            last_coding = rw absent (ap TransferCodingInfo.final_coding_is_chunked plain);
          })
      | inl present ↦
          let some_count : (result.coding_count == 0) ≡ false = ground arith in
          let last = is_chunked (get_transfer_coding result (result.coding_count - 1)) in
          let same : ok
                (record result { has_transfer_encoding = true; final_coding_is_chunked = last })
              ≡ ok info =
            ground arith in
          let e : (record result { has_transfer_encoding = true; final_coding_is_chunked = last })
              ≡ info =
            cc same in
          rw (← e) (record {
            in_order = appended ∙ ap ok plain;
            few = v.few;
            chunked_once = v.chunked_once;
            announced = sym present;
            some_coding = λ saw. ground arith;
            last_coding = rw present refl;
          })
    ]

-- When `Parse` succeeds, appending the elements of all Transfer-Encoding headers one after another
-- gives the codings that it reports, in that order; they are at most four, with at most one
-- chunked; the flags say whether there is such a header, and whether the last coding is chunked;
-- and where there is one, there is a coding.
pub parse_transfer_codings-IsAnnounced :
    (headers : List HttpHeader) (info : TransferCodingInfo)
    → parse_transfer_codings headers ≡ ok info
    → IsAnnounced info headers
unfolding parse_transfer_codings
parse_transfer_codings-IsAnnounced headers info h =
    elim (Result-cases (append_elements (members_of headers) no_codings)) [
      | inr (status, refused) ↦
          absurd (ground (arith, rw (parse_rounds_lem headers no_codings false, refused) at h))
      | inl (result, appended) ↦
          let v =
            append_elements-IsCodings (members_of headers) no_codings result appended
              (record { few = omega arith; chunked_once = omega arith }) in
          let (a, b) =
            append_elements-unflagged (members_of headers) no_codings result appended refl refl in
          let h' = rw (parse_rounds_lem headers no_codings false, appended) at h in
          announced_lem headers result info appended v (unflagged_lem result a b) h'
    ]
