-- ===== src/Tls/Policy/Signatures.antt =====
-- The signature schemes that a policy of src/KernelHttpLib/tls/TlsPolicy.cpp lets through.
use win_kernel_http.Common.{
  ℕ, List, [], ◌∷◌, ◌≡◌, refl, Bool, true, not, ◌&&◌, ◌||◌, ◌==◌, some, arith, Option-cases,
  Bool-cases, inl, inr,
}
use win_kernel_http.Tls.Capabilities.{
  SignatureSchemeCapability, find_scheme, signature_scheme_capabilities,
  find_signature_scheme_capability,
}
use win_kernel_http.Tls.Policy.{
  TlsPolicy, is_compatibility, is_legacy_disposition, allows_signature_scheme,
  allows_scheme_capability, rsa_pkcs1_sha1, ecdsa_sha1,
}

abbrev pub is_sha1 : ℕ → Bool
is_sha1 code = code == rsa_pkcs1_sha1 || code == ecdsa_sha1

-- PKCS #1 v1.5 with SHA-1, SHA-256, SHA-384 or SHA-512.
abbrev pub is_pkcs1 : ℕ → Bool
is_pkcs1 code = code == 513 || code == 1025 || code == 1281 || code == 1537

abbrev is_marked_scheme : SignatureSchemeCapability → Bool
is_marked_scheme c =
    is_legacy_disposition c.default_disposition
    || not (is_sha1 c.signature_scheme || is_pkcs1 c.signature_scheme)

abbrev all_schemes : List SignatureSchemeCapability → Bool
all_schemes [] = true
all_schemes (c ∷ table) = is_marked_scheme c && all_schemes table

schemes_marked : all_schemes signature_scheme_capabilities ≡ true
unfolding signature_scheme_capabilities
schemes_marked = refl

find_scheme-marked :
    (table : List SignatureSchemeCapability) (code : ℕ) (c : SignatureSchemeCapability)
    → find_scheme table code ≡ some c
    → all_schemes table ≡ true
    → (is_marked_scheme c ≡ true) × (c.signature_scheme ≡ code)
find_scheme-marked [] code c h a = absurd (ground arith)
find_scheme-marked (row ∷ table) code c h a = elim (Bool-cases (row.signature_scheme == code)) [
  | inl same ↦
      let found : some row ≡ some c = rw same at h in
      let e : row ≡ c = cc found in rw (← e) (ground arith, ground arith)
  | inr other ↦ find_scheme-marked table code c (rw other at h) (ground arith)
]

-- A signature scheme that a policy allows: if it is one of the two with SHA-1, the policy is one
-- for compatibility that enables SHA-1 signatures, and if it is PKCS #1 v1.5, the policy is one for
-- compatibility.
pub allows_signature_scheme_lem :
    (policy : TlsPolicy) (code : ℕ)
    → allows_signature_scheme policy code ≡ true
    → (is_sha1 code ≡ true
        → (is_compatibility policy.profile && policy.enable_tls12_sha1_signatures) ≡ true)
      × (is_pkcs1 code ≡ true → is_compatibility policy.profile ≡ true)
unfolding allows_signature_scheme find_signature_scheme_capability
allows_signature_scheme_lem policy code h =
    elim (Option-cases (find_scheme signature_scheme_capabilities code)) [
      | inl missing ↦ absurd (
          ground
            (arith, rw (allows_signature_scheme, find_signature_scheme_capability, missing) at h))
      | inr (c, found) ↦
          let h' = rw (allows_signature_scheme, find_signature_scheme_capability, found) at h in
          let allowed : allows_scheme_capability policy code c ≡ true = ground arith in
          let (marked, same) =
            find_scheme-marked signature_scheme_capabilities code c found schemes_marked in
          (λ sha1. ground arith, λ pkcs1. ground arith)
    ]
