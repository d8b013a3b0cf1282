-- ===== src/Tls/Capabilities.antt =====
-- src/KernelHttpLib/tls/TlsCapabilities.cpp: what the library knows about cipher suites, groups and
-- signature schemes, which are their 16-bit codes.
use win_kernel_http.Common.{
  ℕ, zero, suc, List, [], ◌∷◌, Bool, true, false, ◌==◌, if◌then◌else◌, Option, none, some, length,
}

pub data Disposition : Type 0 where
  unsupported default_on optional legacy : Disposition

pub data Protocol : Type 0 where
  tls12 tls13 : Protocol

pub data KeyExchange : Type 0 where
  no_exchange rsa_exchange dhe_rsa ecdhe_rsa ecdhe_ecdsa : KeyExchange

pub data BulkCipher : Type 0 where
  no_cipher aes_gcm aes_ccm chacha20_poly1305 aes_cbc : BulkCipher

pub data Authentication : Type 0 where
  no_authentication rsa_authentication ecdsa_authentication : Authentication

pub data RecordMac : Type 0 where
  no_mac aead hmac_sha256 hmac_sha384 : RecordMac

pub data PrfHash : Type 0 where
  no_hash sha256 sha384 : PrfHash

pub data GroupKind : Type 0 where
  nist_curve xdh ffdhe : GroupKind

-- `TlsCipherSuiteExtensionSupportedGroups` is 1, `ExtendedMasterSecret` 2, `SecureRenegotiation` 4
-- and `EncryptThenMac` 8.
abbrev base_extensions : ℕ
base_extensions = 6

abbrev ephemeral_extensions : ℕ
ephemeral_extensions = 7

abbrev ephemeral_cbc_extensions : ℕ
ephemeral_cbc_extensions = 15

abbrev rsa_cbc_extensions : ℕ
rsa_cbc_extensions = 14

pub record CipherSuiteCapability : Type 0 where
  pub cipher_suite : ℕ
  pub protocol : Protocol
  pub tls12_key_exchange : KeyExchange
  pub bulk_cipher : BulkCipher
  pub authentication : Authentication
  pub record_mac : RecordMac
  pub prf_hash : PrfHash
  pub required_extensions : ℕ
  pub default_disposition : Disposition
  pub compatibility_disposition : Disposition

pub record NamedGroupCapability : Type 0 where
  pub named_group : ℕ
  pub kind : GroupKind
  pub default_disposition : Disposition
  pub compatibility_disposition : Disposition

pub record SignatureSchemeCapability : Type 0 where
  pub signature_scheme : ℕ
  pub default_disposition : Disposition
  pub compatibility_disposition : Disposition

-- `MakeCipherSuiteCapability`.
abbrev suite :
    ℕ
    → Protocol
    → KeyExchange
    → BulkCipher
    → Authentication
    → RecordMac
    → PrfHash
    → ℕ
    → Disposition
    → Disposition
    → CipherSuiteCapability
suite s p k b a m h e d c = record {
  cipher_suite = s;
  protocol = p;
  tls12_key_exchange = k;
  bulk_cipher = b;
  authentication = a;
  record_mac = m;
  prf_hash = h;
  required_extensions = e;
  default_disposition = d;
  compatibility_disposition = c;
}

abbrev group : ℕ → GroupKind → Disposition → Disposition → NamedGroupCapability
group g k d c = record {
  named_group = g;
  kind = k;
  default_disposition = d;
  compatibility_disposition = c;
}

abbrev scheme : ℕ → Disposition → Disposition → SignatureSchemeCapability
scheme s d c = record {
  signature_scheme = s;
  default_disposition = d;
  compatibility_disposition = c;
}

unfoldable pub cipher_suite_capabilities : List CipherSuiteCapability
cipher_suite_capabilities =
    suite 4865 tls13 no_exchange aes_gcm no_authentication aead sha256 0 default_on default_on
    ∷ suite 4866 tls13 no_exchange aes_gcm no_authentication aead sha384 0 default_on default_on
    ∷ suite 4867 tls13 no_exchange chacha20_poly1305 no_authentication aead sha256 0 default_on
        default_on
    ∷ suite 4868 tls13 no_exchange aes_ccm no_authentication aead sha256 0 optional optional
    ∷ suite 4869 tls13 no_exchange aes_ccm no_authentication aead sha256 0 optional optional
    ∷ suite 49199 tls12 ecdhe_rsa aes_gcm rsa_authentication aead sha256 ephemeral_extensions
        default_on default_on
    ∷ suite 49195 tls12 ecdhe_ecdsa aes_gcm ecdsa_authentication aead sha256 ephemeral_extensions
        default_on default_on
    ∷ suite 49200 tls12 ecdhe_rsa aes_gcm rsa_authentication aead sha384 ephemeral_extensions
        default_on default_on
    ∷ suite 49196 tls12 ecdhe_ecdsa aes_gcm ecdsa_authentication aead sha384 ephemeral_extensions
        default_on default_on
    ∷ suite 52392 tls12 ecdhe_rsa chacha20_poly1305 rsa_authentication aead sha256
        ephemeral_extensions default_on default_on
    ∷ suite 52393 tls12 ecdhe_ecdsa chacha20_poly1305 ecdsa_authentication aead sha256
        ephemeral_extensions default_on default_on
    ∷ suite 158 tls12 dhe_rsa aes_gcm rsa_authentication aead sha256 ephemeral_extensions optional
        optional
    ∷ suite 159 tls12 dhe_rsa aes_gcm rsa_authentication aead sha384 ephemeral_extensions optional
        optional
    ∷ suite 52394 tls12 dhe_rsa chacha20_poly1305 rsa_authentication aead sha256
        ephemeral_extensions optional optional
    ∷ suite 49191 tls12 ecdhe_rsa aes_cbc rsa_authentication hmac_sha256 sha256
        ephemeral_cbc_extensions legacy legacy
    ∷ suite 49187 tls12 ecdhe_ecdsa aes_cbc ecdsa_authentication hmac_sha256 sha256
        ephemeral_cbc_extensions legacy legacy
    ∷ suite 156 tls12 rsa_exchange aes_gcm rsa_authentication aead sha256 base_extensions legacy
        legacy
    ∷ suite 157 tls12 rsa_exchange aes_gcm rsa_authentication aead sha384 base_extensions legacy
        legacy
    ∷ suite 60 tls12 rsa_exchange aes_cbc rsa_authentication hmac_sha256 sha256 rsa_cbc_extensions
        legacy legacy
    ∷ []

unfoldable pub named_group_capabilities : List NamedGroupCapability
named_group_capabilities =
    group 29 xdh default_on default_on
    ∷ group 23 nist_curve default_on default_on
    ∷ group 24 nist_curve default_on default_on
    ∷ group 25 nist_curve default_on default_on
    ∷ group 30 xdh optional optional
    ∷ group 256 ffdhe optional optional
    ∷ group 257 ffdhe optional optional
    ∷ group 258 ffdhe optional optional
    ∷ group 259 ffdhe optional optional
    ∷ group 260 ffdhe optional optional
    ∷ []

unfoldable pub signature_scheme_capabilities : List SignatureSchemeCapability
signature_scheme_capabilities =
    scheme 2052 default_on default_on
    ∷ scheme 2053 default_on default_on
    ∷ scheme 2054 default_on default_on
    ∷ scheme 1027 default_on default_on
    ∷ scheme 1283 default_on default_on
    ∷ scheme 1539 default_on default_on
    ∷ scheme 2055 default_on default_on
    ∷ scheme 2056 default_on default_on
    ∷ scheme 2057 optional optional
    ∷ scheme 2058 optional optional
    ∷ scheme 2059 optional optional
    ∷ scheme 1025 legacy legacy
    ∷ scheme 1281 legacy legacy
    ∷ scheme 1537 legacy legacy
    ∷ scheme 513 legacy legacy
    ∷ scheme 515 legacy legacy
    ∷ []

-- `IsDefaultDisposition`, which `IsDefaultOrOptional` of the policy repeats.
abbrev pub is_default_disposition : Disposition → Bool
is_default_disposition default_on = true
is_default_disposition optional = true
is_default_disposition _ = false

-- The loops over the tables: the first row of the code.
abbrev pub find_suite : List CipherSuiteCapability → ℕ → Option CipherSuiteCapability
find_suite [] code = none
find_suite (c ∷ table) code = if c.cipher_suite == code then some c else find_suite table code

abbrev pub find_group : List NamedGroupCapability → ℕ → Option NamedGroupCapability
find_group [] code = none
find_group (c ∷ table) code = if c.named_group == code then some c else find_group table code

abbrev pub find_scheme : List SignatureSchemeCapability → ℕ → Option SignatureSchemeCapability
find_scheme [] code = none
find_scheme (c ∷ table) code = if c.signature_scheme == code then some c else find_scheme table code

unfoldable pub find_cipher_suite_capability : ℕ → Option CipherSuiteCapability
unfolding cipher_suite_capabilities
find_cipher_suite_capability code = find_suite cipher_suite_capabilities code

unfoldable pub find_named_group_capability : ℕ → Option NamedGroupCapability
unfolding named_group_capabilities
find_named_group_capability code = find_group named_group_capabilities code

unfoldable pub find_signature_scheme_capability : ℕ → Option SignatureSchemeCapability
unfolding signature_scheme_capabilities
find_signature_scheme_capability code = find_scheme signature_scheme_capabilities code

abbrev pub cipher_suite_capability_count : ℕ
cipher_suite_capability_count = length cipher_suite_capabilities

abbrev pub row_at : List CipherSuiteCapability → ℕ → Option CipherSuiteCapability
row_at [] index = none
row_at (c ∷ table) zero = some c
row_at (c ∷ table) (suc index) = row_at table index

abbrev pub cipher_suite_capability_at : ℕ → Option CipherSuiteCapability
cipher_suite_capability_at index = row_at cipher_suite_capabilities index

abbrev pub is_some {ℓ} : {A : Type ℓ} → Option A → Bool
is_some none = false
is_some (some a) = true

abbrev pub is_known_cipher_suite : ℕ → Bool
is_known_cipher_suite code = is_some (find_cipher_suite_capability code)

abbrev pub is_known_named_group : ℕ → Bool
is_known_named_group code = is_some (find_named_group_capability code)

abbrev pub is_known_signature_scheme : ℕ → Bool
is_known_signature_scheme code = is_some (find_signature_scheme_capability code)

unfoldable pub is_default_enabled_cipher_suite : ℕ → Bool
unfolding find_cipher_suite_capability
is_default_enabled_cipher_suite code = elim (find_cipher_suite_capability code) [
  | none ↦ false
  | some c ↦ is_default_disposition (CipherSuiteCapability.default_disposition c)
]

unfoldable pub is_default_enabled_named_group : ℕ → Bool
unfolding find_named_group_capability
is_default_enabled_named_group code = elim (find_named_group_capability code) [
  | none ↦ false
  | some c ↦ is_default_disposition (NamedGroupCapability.default_disposition c)
]

unfoldable pub is_default_enabled_signature_scheme : ℕ → Bool
unfolding find_signature_scheme_capability
is_default_enabled_signature_scheme code = elim (find_signature_scheme_capability code) [
  | none ↦ false
  | some c ↦ is_default_disposition (SignatureSchemeCapability.default_disposition c)
]

abbrev pub is_default_enabled_tls12_key_exchange : KeyExchange → Bool
is_default_enabled_tls12_key_exchange ecdhe_rsa = true
is_default_enabled_tls12_key_exchange ecdhe_ecdsa = true
is_default_enabled_tls12_key_exchange dhe_rsa = true
is_default_enabled_tls12_key_exchange _ = false
