-- ===== src/Webhooks/GithubSignature/Laws.antt =====
-- What a valid signature says.
use tci.Prelude.{
  ◌≡◌, refl, ◌↔◌, Bool, true, false, Option, none, some, List, [], ◌∷◌, String, arith, any,
  Bool-cases, inl, inr, ◌==◌, nat_eq, string_eq,
}
use tci.Prelude.Text.{strip_prefix, len}
use tci.Webhooks.GithubSignature.{
  SecretCandidate, is_hex_digest, secret_of, first_valid, verify_github_webhook_signature,
  verify_found,
}

-- A header is one of a digest of the body under a secret of the list.
abbrev pub IsDigest :
    {Body : Type 0}
    → (String → Body → String)
    → List SecretCandidate
    → Body
    → Option String
    → Type 0
IsDigest hexdigest candidates body none = false ≡ true
IsDigest hexdigest candidates body (some provided) =
    (len provided ≡ 64)
    × (is_hex_digest provided ≡ true)
    × (any (λ c. hexdigest (secret_of c) body == provided) candidates ≡ true)

abbrev pub digest_of : Option String → Option String
digest_of none = none
digest_of (some header) = strip_prefix "sha256=" header

module _ {Body : Type 0} (hexdigest : String → Body → String)
    (compare_digest : String → String → Bool)
    (compares : (a b : String) → compare_digest a b ≡ (a == b)) where
  first_valid_lem :
      (provided : String) (body : Body) (cs : List SecretCandidate)
      → (first_valid hexdigest compare_digest provided body cs).signature_is_valid
        ≡ any (λ c. hexdigest (secret_of c) body == provided) cs
  unfolding first_valid
  first_valid_lem provided body [] = refl
  first_valid_lem provided body (c ∷ cs) =
      elim (Bool-cases (hexdigest (secret_of c) body == provided)) [
        | inl same ↦ rw (compares (hexdigest (secret_of c) body) provided, same) refl
        | inr other ↦
            rw (compares (hexdigest (secret_of c) body) provided, other)
              (first_valid_lem provided body cs)
      ]

  -- A signature header is valid exactly when it is `sha256=` and 64 lower case hexadecimal digits
  -- that are the digest of the body under the secret of some candidate.
  pub signature-valid_iff :
      (cs : List SecretCandidate) (header : Option String) (body : Body)
      → ((verify_github_webhook_signature hexdigest compare_digest cs header
            body).signature_is_valid
          ≡ true)
        ↔ IsDigest hexdigest cs body (digest_of header)
  unfolding verify_github_webhook_signature
  signature-valid_iff cs none body = (λ h. h, λ h. h)
  signature-valid_iff cs (some header) body = go (strip_prefix "sha256=" header)
    where
      go :
          (found : Option String)
          → ((verify_found hexdigest compare_digest cs body found).signature_is_valid ≡ true)
            ↔ IsDigest hexdigest cs body found
      go none = (λ h. h, λ h. h)
      go (some provided) = (
        λ h. ground (arith, first_valid_lem provided body cs),
        λ h. ground (arith, first_valid_lem provided body cs),
      )
