-- ===== src/Webhooks/GithubSignature.antt =====
-- infrastructure/webhooks/github_signature.py. The digest of a body under a secret and the constant
-- time comparison are parameters, over a type of bodies.
pub mod Laws
use tci.Prelude.{
  ℕ, Bool, true, false, not, ◌&&◌, ◌||◌, Option, none, some, List, [], ◌∷◌, String, leb,
  if◌then◌else◌, ◌==◌, nat_eq,
}
use tci.Prelude.Text.{strip_prefix, len, all_chars}
use tci.Models.Enums.Types.{WebhookSecretRevisionStatus}
use tci.Models.Rows.{Uuid}

-- A row of `list_verification_candidates`, whose secret has been decrypted or not.
pub record SecretCandidate : Type 0 where
  pub secret : Option String
  pub encrypted_secret : String
  pub revision_id : Uuid
  pub status : WebhookSecretRevisionStatus

pub record GitHubSignatureVerificationResult : Type 0 where
  pub matched_revision_id : Option Uuid
  pub matched_revision_status : Option WebhookSecretRevisionStatus
  pub signature_is_valid : Bool

abbrev pub invalid : GitHubSignatureVerificationResult
invalid = record {
  matched_revision_id = none;
  matched_revision_status = none;
  signature_is_valid = false;
}

-- The code points of `0123456789abcdef`.
abbrev pub is_hex_digit : ℕ → Bool
is_hex_digit c = (leb 48 c && leb c 57) || (leb 97 c && leb c 102)

-- `_is_hex_digest`
unfoldable pub is_hex_digest : String → Bool
unfolding all_chars
is_hex_digest = all_chars is_hex_digit

-- `getattr(candidate, "secret", None)`, with the fallback to `encrypted_secret`.
abbrev pub secret_of : SecretCandidate → String
secret_of c = elim c.secret [ none ↦ c.encrypted_secret | some secret ↦ secret ]

module _ {Body : Type 0} (hexdigest : String → Body → String)
    (compare_digest : String → String → Bool) where
  unfoldable pub first_valid :
      String → Body → List SecretCandidate → GitHubSignatureVerificationResult
  first_valid provided body [] = invalid
  first_valid provided body (c ∷ cs) =
      let rest = first_valid provided body cs in
      if compare_digest (hexdigest (secret_of c) body) provided
      then record {
        matched_revision_id = some c.revision_id;
        matched_revision_status = some c.status;
        signature_is_valid = true;
      }
      else rest

  abbrev pub verify_digest :
      List SecretCandidate → Body → String → GitHubSignatureVerificationResult
  verify_digest candidates body provided =
      if not (len provided == 64) || not (is_hex_digest provided)
      then invalid
      else first_valid provided body candidates

  abbrev pub verify_found :
      List SecretCandidate → Body → Option String → GitHubSignatureVerificationResult
  verify_found candidates body none = invalid
  verify_found candidates body (some provided) = verify_digest candidates body provided

  unfoldable pub verify_github_webhook_signature :
      List SecretCandidate → Option String → Body → GitHubSignatureVerificationResult
  unfolding first_valid is_hex_digest len strip_prefix
  verify_github_webhook_signature candidates none body = invalid
  verify_github_webhook_signature candidates (some header) body =
      verify_found candidates body (strip_prefix "sha256=" header)
