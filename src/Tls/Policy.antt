-- ===== src/Tls/Policy.antt =====
-- src/KernelHttpLib/tls/TlsPolicy.cpp: what a policy lets a connection use.
use win_kernel_http.Common.{
  ℕ, Bool, true, false, not, ◌&&◌, ◌||◌, ◌==◌, if◌then◌else◌, Option, none, some,
}
use win_kernel_http.Common.Status.{Status, invalid_parameter}
use win_kernel_http.Tls.Capabilities.{
  Disposition, unsupported, default_on, optional, legacy, KeyExchange, rsa_exchange, BulkCipher,
  aes_cbc, CipherSuiteCapability, NamedGroupCapability, SignatureSchemeCapability,
  find_cipher_suite_capability, find_named_group_capability, find_signature_scheme_capability,
  is_default_disposition, is_default_enabled_tls12_key_exchange,
}
pub mod Suites
pub mod Signatures
mod Examples

pub data SecurityProfile : Type 0 where
  modern_default compatibility_explicit : SecurityProfile

pub record TlsPolicy : Type 0 where
  pub profile : SecurityProfile
  pub enable_tls12_rsa_key_exchange : Bool
  pub enable_tls12_cbc : Bool
  pub enable_tls12_renegotiation : Bool
  pub enable_tls12_sha1_signatures : Bool
  pub enable_post_handshake_client_auth : Bool
  pub require_revocation_check : Bool

abbrev pub is_compatibility : SecurityProfile → Bool
is_compatibility modern_default = false
is_compatibility compatibility_explicit = true

abbrev pub is_compatibility_profile : TlsPolicy → Bool
is_compatibility_profile policy = is_compatibility policy.profile

abbrev pub is_legacy_disposition : Disposition → Bool
is_legacy_disposition legacy = true
is_legacy_disposition _ = false

abbrev pub is_supported : Disposition → Bool
is_supported unsupported = false
is_supported _ = true

abbrev pub is_rsa : KeyExchange → Bool
is_rsa rsa_exchange = true
is_rsa _ = false

abbrev pub is_cbc : BulkCipher → Bool
is_cbc aes_cbc = true
is_cbc _ = false

abbrev pub is_legacy_cipher_suite : CipherSuiteCapability → Bool
is_legacy_cipher_suite c =
    is_legacy_disposition c.default_disposition
    || is_rsa c.tls12_key_exchange
    || is_cbc c.bulk_cipher

-- `TlsValidatePolicy`, `none` where it succeeds. A profile outside the enumeration is none of the
-- two.
abbrev pub profile_status : SecurityProfile → Bool → Option Status
profile_status modern_default weak = if weak then some invalid_parameter else none
profile_status compatibility_explicit weak = none

unfoldable pub validate_policy : TlsPolicy → Option Status
validate_policy policy = profile_status policy.profile (
    policy.enable_tls12_rsa_key_exchange || policy.enable_tls12_cbc
    || policy.enable_tls12_renegotiation || policy.enable_tls12_sha1_signatures)

-- `NT_SUCCESS`
abbrev pub is_success : Option Status → Bool
is_success none = true
is_success (some status) = false

-- The tests of `TlsPolicyAllowsCipherSuite` on the row that it finds.
abbrev pub allows_capability : TlsPolicy → CipherSuiteCapability → Bool
allows_capability policy c =
    if not (is_legacy_cipher_suite c)
    then is_default_disposition c.default_disposition
    else if not (is_compatibility_profile policy)
    then false
    else if is_rsa c.tls12_key_exchange && not policy.enable_tls12_rsa_key_exchange
    then false
    else if is_cbc c.bulk_cipher && not policy.enable_tls12_cbc
    then false
    else is_supported c.compatibility_disposition

unfoldable pub allows_cipher_suite : TlsPolicy → ℕ → Bool
unfolding validate_policy find_cipher_suite_capability
allows_cipher_suite policy code =
    if not (is_success (validate_policy policy))
    then false
    else elim (find_cipher_suite_capability code) [
      | none ↦ false
      | some c ↦ allows_capability policy c
    ]

unfoldable pub allows_named_group : TlsPolicy → ℕ → Bool
unfolding validate_policy find_named_group_capability
allows_named_group policy code =
    if not (is_success (validate_policy policy))
    then false
    else elim (find_named_group_capability code) [
      | none ↦ false
      | some c ↦ is_default_disposition (NamedGroupCapability.default_disposition c)
    ]

abbrev pub rsa_pkcs1_sha1 : ℕ
rsa_pkcs1_sha1 = 513

abbrev pub ecdsa_sha1 : ℕ
ecdsa_sha1 = 515

-- The tests of `TlsPolicyAllowsSignatureScheme` on the row that it finds.
abbrev pub allows_scheme_capability : TlsPolicy → ℕ → SignatureSchemeCapability → Bool
allows_scheme_capability policy code c =
    if is_legacy_disposition c.default_disposition
    then (if code == rsa_pkcs1_sha1 || code == ecdsa_sha1
        then (is_compatibility_profile policy && policy.enable_tls12_sha1_signatures)
          && is_supported c.compatibility_disposition
        else is_compatibility_profile policy && is_supported c.compatibility_disposition)
    else is_default_disposition c.default_disposition

unfoldable pub allows_signature_scheme : TlsPolicy → ℕ → Bool
unfolding validate_policy find_signature_scheme_capability
allows_signature_scheme policy code =
    if not (is_success (validate_policy policy))
    then false
    else elim (find_signature_scheme_capability code) [
      | none ↦ false
      | some c ↦ allows_scheme_capability policy code c
    ]

unfoldable pub allows_tls12_key_exchange : TlsPolicy → KeyExchange → Bool
unfolding validate_policy
allows_tls12_key_exchange policy exchange =
    if not (is_success (validate_policy policy))
    then false
    else if is_rsa exchange
    then is_compatibility_profile policy && policy.enable_tls12_rsa_key_exchange
    else is_default_enabled_tls12_key_exchange exchange

unfoldable pub allows_tls12_renegotiation : TlsPolicy → Bool
unfolding validate_policy
allows_tls12_renegotiation policy =
    (is_success (validate_policy policy) && is_compatibility_profile policy)
    && policy.enable_tls12_renegotiation
