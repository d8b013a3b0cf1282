-- ===== src/Http2/Hpack/Blocks/Parts.antt =====
-- The parts that HpackDecoder::Decode of src/KernelHttpLib/http2/Hpack.cpp reads off any block: they
-- take bytes off it and stay within the output buffer.
use win_kernel_http.Common.{
  ℕ, ◌+◌, ◌-◌, ◌≤◌, ◌<◌, ◌≡◌, refl, ap, inl, inr, Bool, true, false, not, Bool-cases, Option-cases,
  leb, ltb, ◌==◌, if◌then◌else◌, some, length, take, drop, arith, length-drop,
}
use win_kernel_http.Common.Buffer.{Bytes, bytes, byte_at, has_bit}
use win_kernel_http.Common.Status.{
  Status, buffer_too_small, invalid_network_response, Result, ok, ◌>>◌, require, bind-eq-ok,
}
use win_kernel_http.Http2.Hpack.Integer.{decode_integer}
use win_kernel_http.Http2.Hpack.Integer.RoundTrip.{decode_integer_bounds}
use win_kernel_http.Http2.Hpack.Huffman.{huffman_decode}
use win_kernel_http.Http2.Hpack.Huffman.Canonical.{huffman_decode-room}
use win_kernel_http.Http2.Hpack.Table.{Table, max_size_t}
use win_kernel_http.Http2.Hpack.Names.{range_fits, multiply_size, add_header_list_size}
use win_kernel_http.Http2.Hpack.Strings.{read_integer, string_bytes, read_string}
use win_kernel_http.Http2.Hpack.Decoder.{
  Piece, indexed_field, read_indexed, name_at, read_name, read_literal, materialize, or_too_large,
}

pub require-ok :
    {Out : Type 0} (b : Bool) (status : Status) (next : Result Out) {out : Out}
    → (require b status >> next) ≡ ok out
    → (b ≡ true) × (next ≡ ok out)
require-ok true status next h = (refl, h)
require-ok false status next h = cc

pub read_integer-shorter :
    (rest : Bytes) (bits value : ℕ) (behind : Bytes)
    → read_integer rest bits ≡ ok (value, behind)
    → length behind < length rest
unfolding read_integer
read_integer-shorter rest bits value behind e =
    let ((v, consumed), decoded, same) = bind-eq-ok (decode_integer (bytes rest) bits) _ e in
    let (_, some_byte, _, within) = decode_integer_bounds rest bits v consumed decoded in
    let left : drop consumed rest ≡ behind = cc same in
    omega (arith, length-drop consumed rest, ap length left)

string_bytes-room :
    (huffman : Bool) (coded : Bytes) (nv_offset capacity : ℕ) (text : Bytes)
    → string_bytes huffman coded nv_offset capacity ≡ ok text
    → nv_offset + length text ≤ capacity
unfolding string_bytes range_fits
string_bytes-room false coded nv_offset capacity text e =
    let (held, same) =
      require-ok (range_fits nv_offset (length coded) capacity) buffer_too_small (ok coded) e in
    let left : coded ≡ text = cc same in rw (← left) (ground (arith, held))
string_bytes-room true coded nv_offset capacity text e =
    elim (Option-cases (multiply_size (length coded) 2)) [
      | inl over ↦ let e' = rw over at e in cc
      | inr (hint, fine) ↦
          let (held, decoded) =
            require-ok (range_fits nv_offset hint capacity) buffer_too_small
              (huffman_decode (bytes coded) (some (capacity - nv_offset))) (rw fine at e) in
          let short = huffman_decode-room (capacity - nv_offset) coded text decoded in
          ground (arith, held)
    ]

-- A string stays within the output buffer and takes bytes off the block.
read_string-room :
    (rest : Bytes) (nv_offset capacity : ℕ) (text behind : Bytes)
    → read_string rest nv_offset capacity ≡ ok (text, behind)
    → (nv_offset + length text ≤ capacity) × (length behind < length rest)
unfolding read_string
read_string-room rest nv_offset capacity text behind e =
    let huffman : Bool = has_bit (byte_at rest 0) 7 in
    let (_, e1) = require-ok (ltb 0 (length rest)) invalid_network_response _ e in
    let ((size, left), measured, e2) = bind-eq-ok (read_integer rest 7) _ e1 in
    let (_, e3) = require-ok (leb size (length left)) invalid_network_response _ e2 in
    let (found, decoded, e4) =
      bind-eq-ok (string_bytes huffman (take size left) nv_offset capacity) _ e3 in
    let same : found ≡ text = cc e4 in
    let same' : drop size left ≡ behind = cc e4 in
    let room = string_bytes-room huffman (take size left) nv_offset capacity found decoded in
    let shorter = read_integer-shorter rest 7 size left measured in
    (rw (← same) room, omega (arith, length-drop size left, ap length same'))

name_at-room :
    (t : Table) (index : ℕ) (rest : Bytes) (nv_offset capacity : ℕ) (name : Bytes) (written : Bool)
    (behind : Bytes)
    → nv_offset ≤ capacity
    → name_at t index rest nv_offset capacity ≡ ok (name, written, behind)
    → ((if written then nv_offset + length name else nv_offset) ≤ capacity)
      × (length behind ≤ length rest)
unfolding name_at
name_at-room t index rest nv_offset capacity name written behind h e =
    elim (Bool-cases (ltb 0 index)) [
      | inl known ↦
          let (f, _, e1) = bind-eq-ok (indexed_field t index) _ (rw known at e) in
          let outside : false ≡ written = cc e1 in
          let same : rest ≡ behind = cc e1 in (rw (← outside) h, omega (arith, ap length same))
      | inr new ↦
          let ((found, left), string, e1) =
            bind-eq-ok (read_string rest nv_offset capacity) _ (rw new at e) in
          let (room, shorter) = read_string-room rest nv_offset capacity found left string in
          let inside : true ≡ written = cc e1 in
          let same : found ≡ name = cc e1 in
          let same' : left ≡ behind = cc e1 in
          (rw (← inside, ← same) room, omega (arith, ap length same'))
    ]

-- What the parts of a field that stand in the output buffer take of it.
abbrev pub written_size : Piece → ℕ
written_size piece =
    (if piece.name_written then length piece.field.name else 0)
    + (if piece.value_written then length piece.field.value else 0)

-- A header field that was read: what it takes of the output buffer, and off the block.
abbrev pub IsPiece : ℕ → Bytes → ℕ → Piece → Type 0
IsPiece capacity rest nv_offset piece =
    (piece.nv_offset ≤ capacity)
    × (length piece.behind < length rest)
    × (piece.nv_offset ≡ nv_offset + written_size piece)

pub read_indexed-IsPiece :
    (t : Table) (rest : Bytes) (nv_offset capacity : ℕ) (piece : Piece)
    → nv_offset ≤ capacity
    → read_indexed t rest nv_offset ≡ ok piece
    → IsPiece capacity rest nv_offset piece
unfolding read_indexed
read_indexed-IsPiece t rest nv_offset capacity piece h e =
    let ((index, behind), measured, e1) = bind-eq-ok (read_integer rest 7) _ e in
    let (_, e2) = require-ok (not (index == 0)) invalid_network_response _ e1 in
    let (f, _, e3) = bind-eq-ok (indexed_field t index) _ e2 in
    let used : nv_offset ≡ piece.nv_offset = cc e3 in
    let left : behind ≡ piece.behind = cc e3 in
    let no_name : false ≡ piece.name_written = cc e3 in
    let no_value : false ≡ piece.value_written = cc e3 in
    let shorter = read_integer-shorter rest 7 index behind measured in
    (omega arith, omega (arith, ap length left), rw (← no_name, ← no_value) (omega arith))

pub read_literal-IsPiece :
    (t : Table) (bits : ℕ) (add : Bool) (rest : Bytes) (nv_offset capacity : ℕ) (piece : Piece)
    → nv_offset ≤ capacity
    → read_literal t bits add rest nv_offset capacity ≡ ok piece
    → IsPiece capacity rest nv_offset piece
unfolding read_literal read_name
read_literal-IsPiece t bits add rest nv_offset capacity piece h e =
    let ((name, written, at_value), named, e1) =
      bind-eq-ok (read_name t bits rest nv_offset capacity) _ e in
    let ((index, at_name), measured, e2) = bind-eq-ok (read_integer rest bits) _ named in
    let (room, shorter) =
      name_at-room t index at_name nv_offset capacity name written at_value h e2 in
    let used : ℕ = (if written then nv_offset + length name else nv_offset) in
    let ((value, behind), string, e3) = bind-eq-ok (read_string at_value used capacity) _ e1 in
    let (room', shorter') = read_string-room at_value used capacity value behind string in
    let placed : used + length value ≡ piece.nv_offset = cc e3 in
    let left : behind ≡ piece.behind = cc e3 in
    let first = read_integer-shorter rest bits index at_name measured in
    let same_name : written ≡ piece.name_written = cc e3 in
    let with_value : true ≡ piece.value_written = cc e3 in
    let same : name ≡ piece.field.name = cc e3 in
    let same' : value ≡ piece.field.value = cc e3 in
    (
      omega arith,
      omega (arith, ap length left),
      rw (← placed, ← same_name, ← with_value, ← same, ← same') (ground arith),
    )

pub materialize-room :
    (written : Bool) (n capacity offset next : ℕ)
    → offset ≤ capacity
    → materialize written n capacity offset ≡ ok next
    → (next ≤ capacity) × (next ≡ offset + (if written then 0 else n))
unfolding materialize range_fits
materialize-room true n capacity offset next h e =
    let same : offset ≡ next = cc e in (omega arith, omega arith)
materialize-room false n capacity offset next h e =
    let (held, e1) =
      require-ok (range_fits offset n capacity) buffer_too_small (ok (offset + n)) e in
    let same : offset + n ≡ next = cc e1 in (ground (arith, held), omega arith)

pub list_size-limit :
    (n v limit size next : ℕ)
    → limit ≤ max_size_t
    → or_too_large (add_header_list_size n v limit size) ≡ ok next
    → (next ≡ size + (n + v + 32)) × (next ≤ limit)
unfolding add_header_list_size
list_size-limit n v limit size next h e = ground arith
