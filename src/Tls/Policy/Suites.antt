-- ===== src/Tls/Policy/Suites.antt =====
-- The cipher suites that a policy of src/KernelHttpLib/tls/TlsPolicy.cpp lets through.
use win_kernel_http.Common.{
  ℕ, List, [], ◌∷◌, ◌≡◌, refl, Bool, true, false, not, ◌&&◌, ◌||◌, ◌==◌, some, arith, Option-cases,
  Bool-cases, inl, inr,
}
use win_kernel_http.Tls.Capabilities.{
  KeyExchange, dhe_rsa, ecdhe_rsa, ecdhe_ecdsa, RecordMac, aead, Protocol, tls13,
  CipherSuiteCapability, find_suite, cipher_suite_capabilities, find_cipher_suite_capability,
  is_default_disposition,
}
use win_kernel_http.Tls.Policy.{
  TlsPolicy, is_compatibility, is_rsa, is_cbc, is_legacy_cipher_suite, allows_capability,
  allows_cipher_suite,
}

abbrev pub is_aead : RecordMac → Bool
is_aead aead = true
is_aead _ = false

-- Keys of TLS 1.3 and of the Diffie-Hellman exchanges do not depend on the server's long-term key.
abbrev pub is_ephemeral : KeyExchange → Bool
is_ephemeral dhe_rsa = true
is_ephemeral ecdhe_rsa = true
is_ephemeral ecdhe_ecdsa = true
is_ephemeral _ = false

abbrev pub is_tls13 : Protocol → Bool
is_tls13 tls13 = true
is_tls13 _ = false

abbrev pub is_strong : CipherSuiteCapability → Bool
is_strong c = is_aead c.record_mac && (is_tls13 c.protocol || is_ephemeral c.tls12_key_exchange)

-- No row of the table is weak without being marked.
abbrev is_marked : CipherSuiteCapability → Bool
is_marked c =
    is_legacy_cipher_suite c || not (is_default_disposition c.default_disposition) || is_strong c

abbrev all_rows : (CipherSuiteCapability → Bool) → List CipherSuiteCapability → Bool
all_rows test [] = true
all_rows test (c ∷ table) = test c && all_rows test table

table_marked : all_rows is_marked cipher_suite_capabilities ≡ true
unfolding cipher_suite_capabilities
table_marked = refl

find_suite-all_rows :
    (test : CipherSuiteCapability → Bool) (table : List CipherSuiteCapability) (code : ℕ)
    (c : CipherSuiteCapability)
    → find_suite table code ≡ some c
    → all_rows test table ≡ true
    → test c ≡ true
find_suite-all_rows test [] code c h a = absurd (ground arith)
find_suite-all_rows test (row ∷ table) code c h a = elim (Bool-cases (row.cipher_suite == code)) [
  | inl same ↦
      let found : some row ≡ some c = rw same at h in
      let e : row ≡ c = cc found in rw (← e) (ground arith)
  | inr other ↦ find_suite-all_rows test table code c (rw other at h) (ground arith)
]

found_row :
    (policy : TlsPolicy) (code : ℕ)
    → allows_cipher_suite policy code ≡ true
    → (c : CipherSuiteCapability) × (find_cipher_suite_capability code ≡ some c)
      × (allows_capability policy c ≡ true)
unfolding allows_cipher_suite
found_row policy code h = elim (Option-cases (find_cipher_suite_capability code)) [
  | inl missing ↦ absurd (ground (arith, rw (allows_cipher_suite, missing) at h))
  | inr (c, found) ↦ let h' = rw (allows_cipher_suite, found) at h in (c, found, ground arith)
]

-- What is allowed of a row.
pub record IsAllowed (policy : TlsPolicy) (c : CipherSuiteCapability) : Type 0 where
  pub rsa_enabled :
      is_rsa c.tls12_key_exchange ≡ true
      → (is_compatibility policy.profile && policy.enable_tls12_rsa_key_exchange) ≡ true
  pub cbc_enabled :
      is_cbc c.bulk_cipher ≡ true
      → (is_compatibility policy.profile && policy.enable_tls12_cbc) ≡ true
  pub strong : is_compatibility policy.profile ≡ false → is_strong c ≡ true

allows_capability-IsAllowed :
    (policy : TlsPolicy) (c : CipherSuiteCapability)
    → allows_capability policy c ≡ true
    → is_marked c ≡ true
    → IsAllowed policy c
allows_capability-IsAllowed policy c h m = record {
  rsa_enabled = λ rsa. ground arith;
  cbc_enabled = λ cbc. ground arith;
  strong = λ modern. ground arith;
}

-- A cipher suite that a policy allows has a row in the table; if the row has RSA key exchange, the
-- policy is one for compatibility that enables it, if it has CBC, likewise; and if the policy is
-- not one for compatibility, the row has AEAD records, and is of TLS 1.3 or has an ephemeral key
-- exchange.
pub allows_cipher_suite-IsAllowed :
    (policy : TlsPolicy) (code : ℕ)
    → allows_cipher_suite policy code ≡ true
    → (c : CipherSuiteCapability) × (find_cipher_suite_capability code ≡ some c)
      × IsAllowed policy c
unfolding find_cipher_suite_capability
allows_cipher_suite-IsAllowed policy code h =
    let (c, found, allowed) = found_row policy code h in
    let marked =
      find_suite-all_rows is_marked cipher_suite_capabilities code c found table_marked in
    (c, found, allows_capability-IsAllowed policy c allowed marked)
