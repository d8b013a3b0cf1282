-- ===== src/Http/Parser/Chunked/RoundTrip.antt =====
-- What a sender of chunks writes is what DecodeChunkedBody, src/KernelHttpLib/http/HttpParser.cpp,
-- reads.
use win_kernel_http.Common.{
  ℕ, zero, suc, List, [], ◌∷◌, ◌++◌, ◌+◌, ◌^◌, ◌≤◌, ◌<◌, ◌≡◌, refl, ap, ◌∙◌, true, false, ◌==◌,
  none, some, length, drop, length-append, take-append, drop-append, take-length, arith, All,
}
use win_kernel_http.Common.Buffer.{Bytes, byte_at}
use win_kernel_http.Common.Status.{ok}
use win_kernel_http.Http.Text.{trim, trim_front, trimmed_length}
use win_kernel_http.Http.Parser.Chars.{is_hex_digit, until_char, from_char}
use win_kernel_http.Http.Parser.Number.Positional.{
  all_of, number, hexadecimal_digit, parse_hex_size_lem,
}
use win_kernel_http.Http.Parser.Lines.{find_crlf, starts_line_end}
use win_kernel_http.Http.Parser.Chunked.{
  no_end, trailer_rounds, chunk_rounds, chunk_size, decode_chunked_body,
  decode_chunked_body_with_trailers,
}

-- A chunk with the size that its sender writes.
pub record Chunk : Type 0 where
  pub size_text : Bytes
  pub payload : Bytes

abbrev pub crlf : Bytes
crlf = b'\r' ∷ b'\n' ∷ []

-- A size in hexadecimal, in the 32 characters that a size line may have.
pub record IsSized (size_text : Bytes) (size : ℕ) : Type 0 where
  pub some_digit : 1 ≤ length size_text
  pub short : length size_text ≤ 32
  pub digits : all_of is_hex_digit size_text ≡ true
  pub size_is : number hexadecimal_digit 16 size_text ≡ size

pub record IsChunk (c : Chunk) : Type 0 where
  pub sized : IsSized c.size_text (length c.payload)
  pub not_empty : 1 ≤ length c.payload
  pub fits : length c.payload < 2 ^ 64

-- The chunks, the last one, and what follows them.
abbrev pub wire : List Chunk → Bytes → Bytes
wire [] tail = b'0' ∷ (crlf ++ (crlf ++ tail))
wire (c ∷ chunks) tail = c.size_text ++ (crlf ++ (c.payload ++ (crlf ++ wire chunks tail)))

abbrev pub payloads : List Chunk → Bytes
payloads [] = []
payloads (c ∷ chunks) = c.payload ++ payloads chunks

no_line_end : (c : ℕ) (text : Bytes) → (c == b'\r') ≡ false → starts_line_end c text ≡ false
no_line_end c [] h = refl
no_line_end c (b ∷ text) h = ground arith

drop_more {ℓ} : {A : Type ℓ} (xs ys : List A) (n : ℕ) → drop (length xs + n) (xs ++ ys) ≡ drop n ys
drop_more [] ys n = let e : 0 + n ≡ n = omega arith in rw e refl
drop_more (x ∷ xs) ys n =
    let e : suc (length xs) + n ≡ suc (length xs + n) = omega arith in rw e (drop_more xs ys n)

find_crlf-digits :
    (text rest : Bytes)
    → all_of is_hex_digit text ≡ true
    → find_crlf (text ++ (crlf ++ rest)) ≡ some (length text)
unfolding find_crlf
find_crlf-digits [] rest h = refl
find_crlf-digits (c ∷ text) rest h =
    rw
      (
        no_line_end c (text ++ (crlf ++ rest)) (ground arith),
        find_crlf-digits text rest (ground arith),
      )
      refl

until-digits : (text : Bytes) → all_of is_hex_digit text ≡ true → until_char b';' text ≡ text
until-digits [] h = refl
until-digits (c ∷ text) h = ground (arith, until-digits text)

from-digits : (text : Bytes) → all_of is_hex_digit text ≡ true → from_char b';' text ≡ []
from-digits [] h = refl
from-digits (c ∷ text) h = ground (arith, from-digits text)

byte-digits :
    (text : Bytes) (i : ℕ)
    → all_of is_hex_digit text ≡ true
    → i < length text
    → is_hex_digit (byte_at text i) ≡ true
byte-digits [] i h l = absurd (omega arith)
byte-digits (c ∷ text) zero h l = ground arith
byte-digits (c ∷ text) (suc i) h l = byte-digits text i (ground arith) (omega arith)

trimmed_length-digits :
    (text : Bytes) (n : ℕ)
    → all_of is_hex_digit text ≡ true
    → n ≤ length text
    → trimmed_length text n ≡ n
unfolding trimmed_length
trimmed_length-digits text zero h l = refl
trimmed_length-digits text (suc n) h l = ground (arith, byte-digits text n h (omega arith))

trim-digits : (text : Bytes) → all_of is_hex_digit text ≡ true → trim text ≡ text
unfolding trim
trim-digits text h =
    rw (front text h, trimmed_length-digits text (length text) h (omega arith)) (take-length text)
  where
    front : (text : Bytes) → all_of is_hex_digit text ≡ true → trim_front text ≡ text
    front [] h = unfold trim_front in refl
    front (c ∷ text) h = unfold trim_front in ground arith

chunk_size-digits : (text : Bytes) (n : ℕ) → IsSized text n → n < 2 ^ 64 → chunk_size text ≡ ok n
unfolding chunk_size
chunk_size-digits text n s l =
    let whole = parse_hex_size_lem text s.some_digit s.digits in
    rw
      (
        from-digits text s.digits,
        until-digits text s.digits,
        trim-digits text s.digits,
        whole,
        s.size_is,
      )
      (ground (arith, s))

-- One round on a chunk.
round_lem :
    (c : Chunk) (k : ℕ) (rest : Bytes) (cursor count capacity : ℕ) (body : Bytes)
    → IsChunk c
    → count < 8192
    → length body + length c.payload ≤ capacity
    → chunk_rounds no_end
        (suc k)
        (c.size_text ++ (crlf ++ (c.payload ++ (crlf ++ rest))))
        cursor
        count
        capacity
        none
        body
      ≡ chunk_rounds no_end k rest
          (cursor + length c.size_text + 2 + length c.payload + 2)
          (count + 1)
          capacity
          none
          (body ++ c.payload)
unfolding chunk_rounds
round_lem c k rest cursor count capacity body h n l =
    let found = find_crlf-digits c.size_text (c.payload ++ (crlf ++ rest)) h.sized.digits in
    let line = take-append c.size_text (crlf ++ (c.payload ++ (crlf ++ rest))) in
    let after = drop_more c.size_text (crlf ++ (c.payload ++ (crlf ++ rest))) 2 in
    let size = chunk_size-digits c.size_text (length c.payload) h.sized h.fits in
    let chunk = take-append c.payload (crlf ++ rest) in
    let behind = drop-append c.payload (crlf ++ rest) in
    let next = drop_more c.payload (crlf ++ rest) 2 in
    rw (chunk_rounds, found, line, after, size, chunk, behind, next)
      (ground (arith, h, length-append c.payload (crlf ++ rest)))

trailer_rounds-end :
    (k : ℕ) (tail : Bytes) (cursor : ℕ) (body : Bytes)
    → trailer_rounds no_end (suc k) (crlf ++ tail) cursor none body []
      ≡ ok (record { body = body; consumed = cursor + 2; trailers = [] })
unfolding trailer_rounds find_crlf
trailer_rounds-end k tail cursor body = refl

zero-IsSized : IsSized (b'0' ∷ []) 0
zero-IsSized = record {
  some_digit = omega arith;
  short = omega arith;
  digits = refl;
  size_is = refl;
}

end_lem :
    (k : ℕ) (tail : Bytes) (cursor count capacity : ℕ) (body : Bytes)
    → chunk_rounds no_end (suc (suc k)) (wire [] tail) cursor count capacity none body
      ≡ ok (record { body = body; consumed = cursor + 1 + 2 + 2; trailers = [] })
unfolding chunk_rounds
end_lem k tail cursor count capacity body =
    let found = find_crlf-digits (b'0' ∷ []) (crlf ++ tail) refl in
    rw
      (
        chunk_rounds,
        found,
        chunk_size-digits (b'0' ∷ []) 0 zero-IsSized (omega arith),
        trailer_rounds-end k tail (cursor + 1 + 2) body,
      )
      refl

abbrev wire_length : List Chunk → ℕ
wire_length [] = 5
wire_length (c ∷ chunks) = length c.size_text + 2 + length c.payload + 2 + wire_length chunks

length-wire :
    (chunks : List Chunk) (tail : Bytes)
    → length (wire chunks tail) ≡ wire_length chunks + length tail
length-wire [] tail = omega arith
length-wire (c ∷ chunks) tail = omega (
  arith,
  length-append c.size_text (crlf ++ (c.payload ++ (crlf ++ wire chunks tail))),
  length-append c.payload (crlf ++ wire chunks tail),
  length-wire chunks tail,
)

append_assoc {ℓ} : {A : Type ℓ} (xs ys zs : List A) → (xs ++ ys) ++ zs ≡ xs ++ (ys ++ zs)
append_assoc [] ys zs = refl
append_assoc (x ∷ xs) ys zs = ap (◌∷◌ x) (append_assoc xs ys zs)

append_nil {ℓ} : {A : Type ℓ} (xs : List A) → xs ++ [] ≡ xs
append_nil [] = refl
append_nil (x ∷ xs) = ap (◌∷◌ x) (append_nil xs)

rounds_lem :
    (chunks : List Chunk) (k : ℕ) (tail : Bytes) (cursor count capacity : ℕ) (body : Bytes)
    → All IsChunk chunks
    → wire_length chunks ≤ k
    → count + length chunks ≤ 8192
    → length body + length (payloads chunks) ≤ capacity
    → chunk_rounds no_end k (wire chunks tail) cursor count capacity none body
      ≡ ok (record {
        body = body ++ payloads chunks;
        consumed = cursor + wire_length chunks;
        trailers = [];
      })
rounds_lem [] zero tail cursor count capacity body a f n l = absurd (omega arith)
rounds_lem [] (suc zero) tail cursor count capacity body a f n l = absurd (omega arith)
rounds_lem [] (suc (suc k)) tail cursor count capacity body a f n l =
    let e : cursor + 1 + 2 + 2 ≡ cursor + 5 = omega arith in
    rw (append_nil body) (rw e at (end_lem k tail cursor count capacity body))
rounds_lem (c ∷ chunks) zero tail cursor count capacity body a f n l = absurd (omega arith)
rounds_lem (c ∷ chunks) (suc k) tail cursor count capacity body (h, a) f n l =
    let longer = length-append c.payload (payloads chunks) in
    let sum = length-append body c.payload in
    let step =
      round_lem c k (wire chunks tail) cursor count capacity body h (omega arith) (omega arith) in
    let rest =
      rounds_lem chunks k tail (cursor + length c.size_text + 2 + length c.payload + 2) (count + 1)
        capacity (body ++ c.payload) a (omega arith) (omega arith) (omega arith) in
    let e : cursor + length c.size_text + 2 + length c.payload + 2 + wire_length chunks
        ≡ cursor + wire_length (c ∷ chunks) =
      omega arith in
    step ∙ rw (append_assoc body c.payload (payloads chunks), e) at rest

-- For at most 8192 chunks, none of them empty, each with a size in at most 32 hexadecimal digits
-- that denote the length of its payload, and room for all payloads: whatever follows the last
-- chunk, `DecodeChunkedBody` succeeds with the payloads one after another, without trailers, and
-- has consumed the chunks and no more.
pub chunked_round_trip :
    (chunks : List Chunk) (tail : Bytes) (capacity : ℕ)
    → All IsChunk chunks
    → length chunks ≤ 8192
    → length (payloads chunks) ≤ capacity
    → decode_chunked_body (wire chunks tail) capacity
      ≡ ok (record { body = payloads chunks; consumed = length (wire chunks []); trailers = [] })
unfolding decode_chunked_body_with_trailers
chunked_round_trip chunks tail capacity a n l =
    let whole : 0 + wire_length chunks ≡ length (wire chunks []) =
      omega (arith, length-wire chunks []) in
    rw whole at (
      rounds_lem chunks (suc (length (wire chunks tail))) tail 0 0 capacity [] a
        (omega (arith, length-wire chunks tail)) (omega arith) (omega arith))
