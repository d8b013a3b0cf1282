-- ===== src/Tls/Policy/Examples.antt =====
-- A policy for old servers.
use win_kernel_http.Common.{◌≡◌, refl, true, false, ◌&&◌, some}
use win_kernel_http.Tls.Capabilities.{
  CipherSuiteCapability, find_cipher_suite_capability, cipher_suite_capabilities,
  find_signature_scheme_capability, signature_scheme_capabilities,
}
use win_kernel_http.Tls.Policy.{
  TlsPolicy, compatibility_explicit, is_compatibility, allows_cipher_suite, allows_signature_scheme,
  validate_policy,
}
use win_kernel_http.Tls.Policy.Suites.{IsAllowed, allows_cipher_suite-IsAllowed}
use win_kernel_http.Tls.Policy.Signatures.{is_sha1, is_pkcs1, allows_signature_scheme_lem}

abbrev old_servers : TlsPolicy
old_servers = record {
  profile = compatibility_explicit;
  enable_tls12_rsa_key_exchange = true;
  enable_tls12_cbc = true;
  enable_tls12_renegotiation = false;
  enable_tls12_sha1_signatures = true;
  enable_post_handshake_client_auth = false;
  require_revocation_check = false;
}

-- TLS_RSA_WITH_AES_128_CBC_SHA256 and rsa_pkcs1_sha1.
rsa_cbc_allowed : allows_cipher_suite old_servers 60 ≡ true
unfolding allows_cipher_suite validate_policy find_cipher_suite_capability cipher_suite_capabilities
rsa_cbc_allowed = refl

sha1_allowed : allows_signature_scheme old_servers 513 ≡ true
unfolding allows_signature_scheme validate_policy find_signature_scheme_capability
    signature_scheme_capabilities
sha1_allowed = refl

allows_cipher_suite-IsAllowed_example :
    (c : CipherSuiteCapability) × (find_cipher_suite_capability 60 ≡ some c)
    × IsAllowed old_servers c
allows_cipher_suite-IsAllowed_example = allows_cipher_suite-IsAllowed old_servers 60 rsa_cbc_allowed

allows_signature_scheme_lem_example :
    (is_sha1 513 ≡ true
      → (is_compatibility old_servers.profile && old_servers.enable_tls12_sha1_signatures) ≡ true)
    × (is_pkcs1 513 ≡ true → is_compatibility old_servers.profile ≡ true)
allows_signature_scheme_lem_example = allows_signature_scheme_lem old_servers 513 sha1_allowed
