-- ===== src/WebSocket/Handshake/Accept.antt =====
-- What ValidateServerHandshake of src/KernelHttpLib/websocket/WebSocketFrame.cpp accepts.
use win_kernel_http.Common.{
  ℕ, [], ◌∷◌, ◌++◌, ◌≤◌, ◌<◌, ◌≡◌, refl, Bool, true, leb, ◌==◌, Bool-cases, Option-cases, Option,
  none, some, length, arith, All, ◌⊎◌, inl, inr, ◌↔◌, ap, ◌∙◌, sym,
}
use mathlib.Core.Path.{subst}
use win_kernel_http.Common.Bits.{every_below, every_below_at}
use win_kernel_http.Common.Buffer.{Bytes, IsByte, Buffer, null, bytes, contents, low_bits}
use win_kernel_http.Common.Status.{
  Result, ok, Result-cases, bind-eq-ok, ◌>>=◌, require, invalid_network_response,
  insufficient_resources,
}
use win_kernel_http.Http.Response.{HttpHeader, HttpResponse, find_header}
use win_kernel_http.WebSocket.Base64.{base64_char, base64_groups, base64_encode}
use win_kernel_http.WebSocket.Subprotocol.{
  count_headers, find_selected_subprotocol, validate_selected_subprotocol,
}
use win_kernel_http.WebSocket.Handshake.{
  websocket_guid, constant_time_equals, accept_name, extensions_name, is_upgrade, stored_text,
  compute_accept_value, find_accept, refuse_extensions, check_accept, check_selected,
  validate_server_handshake,
}
use win_kernel_http.WebSocket.Handshake.Difference.{difference_iff}

char_table : every_below 64 (λ v. leb (base64_char v) 255) ≡ true
unfolding every_below base64_char
char_table = refl

base64_char-IsByte : (v : ℕ) → v < 64 → IsByte (base64_char v)
base64_char-IsByte v h =
    ground (arith, every_below_at 64 (λ w. leb (base64_char w) 255) v char_table h)

next : (v : ℕ) → IsByte (base64_char (low_bits v 6))
next v = base64_char-IsByte (low_bits v 6) (omega arith)

base64_groups-IsByte : (xs : Bytes) → All IsByte (base64_groups xs)
unfolding base64_groups
base64_groups-IsByte (a ∷ b ∷ c ∷ rest) =
    (next _, (next _, (next _, (next _, base64_groups-IsByte rest))))
base64_groups-IsByte (a ∷ b ∷ []) = (next _, (next _, (next _, (omega arith, tt))))
base64_groups-IsByte (a ∷ []) = (next _, (next _, (omega arith, (omega arith, tt))))
base64_groups-IsByte [] = tt

module _ (sha1 : Bytes → Result Bytes) where
  -- The client key and its digest.
  pub record IsDigest (client_key : Buffer) (digest : Bytes) : Type 0 where
    pub key : Bytes
    pub is_key : client_key ≡ bytes key
    pub is_nonempty : 1 ≤ length key
    pub is_digest : sha1 (key ++ websocket_guid) ≡ ok digest
    pub is_twenty : length digest ≡ 20

  expected-IsDigest :
      (client_key : Buffer) (expected : Bytes)
      → stored_text (compute_accept_value sha1 client_key (some 28)) ≡ ok expected
      → (digest : Bytes) × IsDigest client_key digest × (expected ≡ base64_groups digest)
  unfolding compute_accept_value base64_encode
  expected-IsDigest (null n) expected e = absurd (ground arith)
  expected-IsDigest (bytes key) expected e = elim (Result-cases (sha1 (key ++ websocket_guid))) [
    | inl (digest, d) ↦ (
      digest,
      record {
        key = key;
        is_key = refl;
        is_nonempty = ground arith;
        is_digest = d;
        is_twenty = ground arith;
      },
      ground arith,
    )
    | inr (status, d) ↦ absurd (ground arith)
  ]

  IsDigest-expected :
      (client_key : Buffer) (digest : Bytes)
      → IsDigest client_key digest
      → stored_text (compute_accept_value sha1 client_key (some 28)) ≡ ok (base64_groups digest)
  unfolding compute_accept_value base64_encode
  IsDigest-expected client_key digest h =
      ground (arith, h.is_key, h.is_digest, h.is_twenty, h.is_nonempty)

Buffer-cases : (b : Buffer) → ((n : ℕ) × (b ≡ null n)) ⊎ ((xs : Bytes) × (b ≡ bytes xs))
Buffer-cases (null n) = inl (n, refl)
Buffer-cases (bytes xs) = inr (xs, refl)

check_accept_iff :
    (accept : HttpHeader) (expected : Bytes)
    → All IsByte (contents (HttpHeader.value accept))
    → All IsByte expected
    → (check_accept accept expected ≡ ok tt) ↔ (HttpHeader.value accept ≡ bytes expected)
unfolding check_accept constant_time_equals
check_accept_iff accept expected ha he = elim (Buffer-cases (HttpHeader.value accept)) [
  | inl (n, e) ↦ ground arith
  | inr (value, e) ↦
      let hv : All IsByte value = subst (λ b. All IsByte (contents b)) e ha in
      elim (Bool-cases (length value == length expected)) [
        | inl same ↦
            ground (arith, difference_iff value expected 0 hv he (omega arith) (ground arith))
        | inr other ↦ ground arith
      ]
]

find_accept_iff :
    (response : HttpResponse) (accept : HttpHeader)
    → (find_accept response ≡ ok accept) ↔ (
        (find_header response accept_name ≡ some accept) × (count_headers response accept_name ≡ 1))
unfolding find_accept
find_accept_iff response accept = elim (Option-cases (find_header response accept_name)) [
  | inl e ↦ ground arith
  | inr (found, e) ↦ ground arith
]

refuse_extensions_iff :
    (response : HttpResponse)
    → (refuse_extensions response ≡ ok tt) ↔ (find_header response extensions_name ≡ none)
refuse_extensions_iff response = ground arith

-- Nothing is selected, or a subprotocol that the negotiation accepts.
abbrev pub IsRequested : Buffer → Option Buffer → Type 0
IsRequested requested none = Unit
IsRequested requested (some v) = validate_selected_subprotocol v requested ≡ ok tt

check_selected_lem :
    (requested : Buffer) (chosen selected : Option Buffer)
    → check_selected requested chosen ≡ ok selected
    → (chosen ≡ selected) × IsRequested requested selected
check_selected_lem requested none none e = (refl, tt)
check_selected_lem requested none (some v) e = absurd (ground arith)
check_selected_lem requested (some chosen) selected e =
    elim (Result-cases (validate_selected_subprotocol chosen requested)) [
      | inl (u, r) ↦
          let same : some chosen ≡ selected = ground arith in
          (same, subst (IsRequested requested) same r)
      | inr (status, r) ↦ absurd (ground arith)
    ]

-- The characters of the accept value are bytes.
abbrev pub HasByteText : HttpResponse → Type 0
HasByteText response =
    (accept : HttpHeader)
    → find_header response accept_name ≡ some accept
    → All IsByte (contents (HttpHeader.value accept))

module _ (sha1 : Bytes → Result Bytes) where
  -- The answer to `client_key`: an HTTP/1.1 upgrade with one accept header, whose value is the
  -- base64 text of the digest of the key and the GUID, and without an extension.
  pub record IsAnswer (response : HttpResponse) (client_key : Buffer) : Type 0 where
    pub is_switch : is_upgrade response ≡ true
    pub accept : HttpHeader
    pub is_found : find_header response accept_name ≡ some accept
    pub is_single : count_headers response accept_name ≡ 1
    pub digest : Bytes
    pub is_digest : IsDigest sha1 client_key digest
    pub is_value : HttpHeader.value accept ≡ bytes (base64_groups digest)
    pub is_plain : find_header response extensions_name ≡ none

  -- For any hash and a response whose accept value is made of bytes: a handshake that validates is
  -- an HTTP/1.1 upgrade with status 101, has exactly one accept header, whose value is the base64
  -- text of the digest of the client key and the GUID, and no extensions header; the subprotocol
  -- that it reports is the one that the response selects, and where there is one, the negotiation
  -- accepts it against the requested list.
  pub validate_server_handshake_sound :
      (allocated : Bool) (response : HttpResponse) (client_key requested : Buffer)
      (selected : Option Buffer)
      → HasByteText response
      → validate_server_handshake sha1 allocated response client_key requested ≡ ok selected
      → IsAnswer response client_key
        × (find_selected_subprotocol response ≡ ok selected)
        × IsRequested requested selected
  unfolding validate_server_handshake
  validate_server_handshake_sound allocated response client_key requested selected h e =
      let (_, eu, e0) = bind-eq-ok (require (is_upgrade response) invalid_network_response) _ e in
      let (accept, ea, e1) = bind-eq-ok (find_accept response) _ e0 in
      let (_, ex, e2) = bind-eq-ok (refuse_extensions response) _ e1 in
      let (_, ey, e3) = bind-eq-ok (require allocated insufficient_resources) _ e2 in
      let (expected, et, e4) =
        bind-eq-ok (stored_text (compute_accept_value sha1 client_key (some 28))) _ e3 in
      let (_, ez, e5) = bind-eq-ok (check_accept accept expected) _ e4 in
      let (chosen, ec, e6) = bind-eq-ok (find_selected_subprotocol response) _ e5 in
      let found = (find_accept_iff response accept).0 ea in
      let (digest, d, base) = expected-IsDigest sha1 client_key expected et in
      let text : All IsByte expected =
        subst (λ b. All IsByte b) (sym base) (base64_groups-IsByte digest) in
      let same = check_selected_lem requested chosen selected e6 in
      (
        record {
          is_switch = ground arith;
          accept = accept;
          is_found = found.0;
          is_single = found.1;
          digest = digest;
          is_digest = d;
          is_value =
              (check_accept_iff accept expected (h accept found.0) text).0 ez ∙ ap bytes base;
          is_plain = ground arith;
        },
        ground arith,
        same.1,
      )

  -- For any hash, a response that answers the client key, and an expected value that could be
  -- allocated, the verdict of `ValidateServerHandshake` is that of the subprotocol negotiation
  -- alone.
  pub validate_server_handshake_complete :
      (response : HttpResponse) (client_key requested : Buffer)
      → HasByteText response
      → IsAnswer response client_key
      → validate_server_handshake sha1 true response client_key requested
        ≡ (find_selected_subprotocol response >>= check_selected requested)
  unfolding validate_server_handshake
  validate_server_handshake_complete response client_key requested h a =
      let value = IsDigest-expected sha1 client_key a.digest a.is_digest in
      let check =
        (check_accept_iff a.accept (base64_groups a.digest) (h a.accept a.is_found)
            (base64_groups-IsByte a.digest)).1
          a.is_value in
      let found = (find_accept_iff response a.accept).1 (a.is_found, a.is_single) in
      ground
        (arith, value, check, found, a.is_switch, (refuse_extensions_iff response).1 a.is_plain)
