-- ===== src/Http/Response/Range/Bounds.antt =====
-- The ranges that GetContentRange of src/KernelHttpLib/http/HttpResponse.cpp accepts.
use win_kernel_http.Common.{
  ℕ, [], ◌∷◌, ◌+◌, ◌-◌, ◌*◌, ◌^◌, ◌≤◌, ◌<◌, ◌≡◌, refl, ◌∙◌, true, false, not, ◌&&◌, ◌||◌, ltb, leb,
  ◌==◌, some, length, drop, arith, Option-cases, Bool-cases, inl, inr,
}
use win_kernel_http.Common.Buffer.{Bytes, Buffer, null, bytes, byte_at}
use win_kernel_http.Common.Text.{codes}
use win_kernel_http.Http.Text.{trim_front}
use win_kernel_http.Http.Response.{HttpResponse, find_header}
use win_kernel_http.Http.Response.Range.{
  ContentRange, Unsigned, max_ulonglong, unsigned_rounds, parse_unsigned, expect, at_end,
  unsatisfied_range, range_complete, satisfied_range, range_of_value, range_of_buffer,
  get_content_range,
}

-- A range that can be meant.
pub record IsRange (r : ContentRange) : Type 0 where
  pub ordered : r.has_range ≡ true → r.first_byte_pos ≤ r.last_byte_pos
  pub inside :
      r.has_range ≡ true → r.has_complete_length ≡ true → r.last_byte_pos < r.complete_length
  pub known : r.has_range ≡ false → r.has_complete_length ≡ true
  pub positions : r.last_byte_pos < 2 ^ 64
  pub size : r.complete_length < 2 ^ 64

unsigned_rounds_bound :
    (text : Bytes) (result : ℕ) (found : Unsigned)
    → unsigned_rounds text result ≡ some found
    → result ≤ max_ulonglong
    → found.value ≤ max_ulonglong
unfolding unsigned_rounds
unsigned_rounds_bound [] result found h b = ground arith
unsigned_rounds_bound (c ∷ text) result found h b = elim (Bool-cases (ltb c b'0' || ltb b'9' c)) [
  | inl stop ↦ ground arith
  | inr digit ↦
      let more : unsigned_rounds text (result * 10 + (c - b'0')) ≡ some found = ground arith in
      unsigned_rounds_bound text (result * 10 + (c - b'0')) found more (ground arith)
]

parse_unsigned_bound :
    (text : Bytes) (found : Unsigned) → parse_unsigned text ≡ some found → found.value < 2 ^ 64
unfolding parse_unsigned
parse_unsigned_bound text found h = elim (Option-cases (unsigned_rounds text 0)) [
  | inl overflow ↦ absurd (ground (arith, rw (parse_unsigned, overflow) at h))
  | inr (number, read) ↦
      let bound = unsigned_rounds_bound text 0 number read (omega arith) in
      let h' = rw (parse_unsigned, read) at h in ground (arith, bound)
]

-- A refusal behind an acceptance is no acceptance.
at_end-some : (range r : ContentRange) (text : Bytes) → at_end range text ≡ some r → range ≡ r
at_end-some range r text h = elim (Bool-cases (length (trim_front text) == 0)) [
  | inl over ↦ let e : some range ≡ some r = rw over at h in cc e
  | inr more ↦ absurd (ground (arith, rw more at h))
]

unsatisfied-IsRange :
    (text : Bytes) (r : ContentRange) → unsatisfied_range text ≡ some r → IsRange r
unfolding unsatisfied_range
unsatisfied-IsRange text r h = elim (Option-cases (expect b'/' text)) [
  | inl missing ↦ absurd (ground (arith, rw missing at h))
  | inr (number, slash) ↦ elim (Option-cases (parse_unsigned number)) [
    | inl bad ↦ absurd (ground (arith, rw (slash, bad) at h))
    | inr (complete, parsed) ↦
        let bound = parse_unsigned_bound number complete parsed in
        let e = at_end-some _ r complete.rest (rw (slash, parsed) at h) in
        rw (← e) (record {
          ordered = λ ranged. absurd (ground arith);
          inside = λ ranged known. absurd (ground arith);
          known = λ ranged. refl;
          positions = omega arith;
          size = bound;
        })
  ]
]

range_complete-IsRange :
    (first last : ℕ) (text : Bytes) (r : ContentRange)
    → range_complete first last text ≡ some r
    → first ≤ last
    → last < 2 ^ 64
    → IsRange r
unfolding range_complete
range_complete-IsRange first last text r h o l =
    elim (Bool-cases (not (length text == 0) && byte_at text 0 == b'*')) [
      | inl star ↦
          let e = at_end-some _ r (drop 1 text) (rw star at h) in
          rw (← e) (record {
            ordered = λ ranged. o;
            inside = λ ranged known. absurd (ground arith);
            known = λ ranged. absurd (ground arith);
            positions = l;
            size = omega arith;
          })
      | inr other ↦ elim (Option-cases (parse_unsigned text)) [
        | inl bad ↦ absurd (ground (arith, rw (other, bad) at h))
        | inr (complete, parsed) ↦
            let bound = parse_unsigned_bound text complete parsed in
            elim (Bool-cases (leb complete.value last)) [
              | inl short ↦ absurd (ground (arith, rw (other, parsed, short) at h))
              | inr long ↦
                  let e = at_end-some _ r complete.rest (rw (other, parsed, long) at h) in
                  rw (← e) (record {
                    ordered = λ ranged. o;
                    inside = λ ranged known. ground arith;
                    known = λ ranged. absurd (ground arith);
                    positions = l;
                    size = bound;
                  })
            ]
      ]
    ]

satisfied-IsRange : (text : Bytes) (r : ContentRange) → satisfied_range text ≡ some r → IsRange r
unfolding satisfied_range
satisfied-IsRange text r h = elim (Option-cases (parse_unsigned text)) [
  | inl bad ↦ absurd (ground (arith, rw bad at h))
  | inr (first, parsed) ↦ elim (Option-cases (expect b'-' first.rest)) [
    | inl missing ↦ absurd (ground (arith, rw (parsed, missing) at h))
    | inr (behind, dash) ↦ elim (Option-cases (parse_unsigned behind)) [
      | inl bad ↦ absurd (ground (arith, rw (parsed, dash, bad) at h))
      | inr (last, parsed') ↦ elim (Bool-cases (ltb last.value first.value)) [
        | inl before ↦ absurd (ground (arith, rw (parsed, dash, parsed', before) at h))
        | inr ordered ↦ elim (Option-cases (expect b'/' last.rest)) [
          | inl missing ↦ absurd (ground (arith, rw (parsed, dash, parsed', ordered, missing) at h))
          | inr (rest, slash) ↦
              range_complete-IsRange first.value last.value rest r
                (rw (parsed, dash, parsed', ordered, slash) at h) (ground arith)
                (parse_unsigned_bound behind last parsed')
        ]
      ]
    ]
  ]
]

range_of_value-IsRange :
    (value : Bytes) (r : ContentRange) → range_of_value value ≡ some r → IsRange r
unfolding range_of_value
range_of_value-IsRange value r h =
    let text = trim_front (drop 5 (trim_front value)) in
    elim (Option-cases (unsatisfied_range (drop 1 text))) [
      | inr (found, accepted) ↦ elim (Bool-cases (byte_at text 0 == b'*')) [
        | inl star ↦
            let same : some found ≡ some r = ground arith in
            unsatisfied-IsRange (drop 1 text) r (accepted ∙ same)
        | inr other ↦
            let same : satisfied_range text ≡ some r = ground arith in satisfied-IsRange text r same
      ]
      | inl refused ↦
          let same : satisfied_range text ≡ some r = ground arith in satisfied-IsRange text r same
    ]

range_of_buffer-IsRange :
    (value : Buffer) (r : ContentRange) → range_of_buffer value ≡ some r → IsRange r
unfolding range_of_buffer
range_of_buffer-IsRange (null n) r h = absurd (ground arith)
range_of_buffer-IsRange (bytes value) r h = range_of_value-IsRange value r h

-- A range that `GetContentRange` accepts has its first position at or before its last one, and its
-- last one inside the complete length if that is given; an answer without a range has a complete
-- length; and the last position and the complete length are below 2^64.
pub get_content_range-IsRange :
    (response : HttpResponse) (r : ContentRange) → get_content_range response ≡ some r → IsRange r
unfolding get_content_range
get_content_range-IsRange response r h =
    elim (Option-cases (find_header response (bytes (codes "Content-Range")))) [
      | inl missing ↦ absurd (ground (arith, rw (get_content_range, missing) at h))
      | inr (header, found) ↦
          range_of_buffer-IsRange header.value r (rw (get_content_range, found) at h)
    ]
