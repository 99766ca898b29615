-- ===== src/Services/GithubEvent/Verification.antt =====
-- The signature check of a GitHub delivery. The strings of the signature statuses stand for the
-- members of the enumeration.
use tci.Prelude.{
  Bool, true, false, not, ◌&&◌, Option, none, some, List, [], ◌∷◌, String, if◌then◌else◌, ◌==◌,
  nat_eq, is_some,
}
use tci.Prelude.Text.{strip_prefix, len}
use tci.Models.Enums.Types.{SignatureStatus, WebhookSecretRevisionStatus}
use tci.Models.Enums.Equality.{signature_status_eq}
use tci.Models.Rows.{Uuid, Instant, WebhookSecretRevision}
use tci.Session.{Session, Result, ok, err, lift, pure, ◌>>=◌}
use tci.Persistence.Secrets.{list_verification_candidates}
use tci.Webhooks.GithubSignature.{
  SecretCandidate, GitHubSignatureVerificationResult, is_hex_digest,
  verify_github_webhook_signature,
}
use tci.Services.Platform.{Platform, decrypt_secret_from_storage}
use tci.Services.GithubEvent.{GitHubPlatform, ProcessGitHubEventCommand}

pub record SecretVerificationInput : Type 0 where
  pub has_any_secret : Bool
  pub signature_header : Option String
  pub signature_is_valid : Bool
  pub matched_secret_revision_id : Option Uuid
  pub matched_secret_status : Option WebhookSecretRevisionStatus

pub record SecretVerificationOutcome : Type 0 where
  pub signature_status : SignatureStatus
  pub verified_secret_revision_id : Option Uuid
  pub verified_secret_revision_status : Option WebhookSecretRevisionStatus

-- `SecretVerificationOutcome.is_verified`
abbrev pub secret_is_verified : SecretVerificationOutcome → Bool
secret_is_verified outcome = outcome.signature_status == SignatureStatus.verified

abbrev pub unverified : SignatureStatus → SecretVerificationOutcome
unverified status = record {
  signature_status = status;
  verified_secret_revision_id = none;
  verified_secret_revision_status = none;
}

abbrev is_digest : Option String → Bool
is_digest none = false
is_digest (some digest) = len digest == 64 && is_hex_digest digest

-- `_looks_like_github_signature`
unfoldable pub looks_like_github_signature : Option String → Bool
unfolding strip_prefix len is_hex_digest
looks_like_github_signature none = false
looks_like_github_signature (some header) = is_digest (strip_prefix "sha256=" header)

unfoldable pub evaluate_github_secret_verification :
    SecretVerificationInput → SecretVerificationOutcome
unfolding looks_like_github_signature
evaluate_github_secret_verification i =
    if not i.has_any_secret
    then unverified SignatureStatus.secret_missing
    else if i.signature_is_valid && is_some i.matched_secret_status
    then record {
      signature_status = SignatureStatus.verified;
      verified_secret_revision_id = i.matched_secret_revision_id;
      verified_secret_revision_status = i.matched_secret_status;
    }
    else if not (looks_like_github_signature i.signature_header)
    then unverified SignatureStatus.signature_invalid
    else unverified SignatureStatus.secret_mismatch

-- `_build_verification_candidate`: a row has no attribute `secret`, so it is decrypted.
abbrev pub decrypted_candidate : WebhookSecretRevision → String → SecretCandidate
decrypted_candidate r secret = record {
  secret = some secret;
  encrypted_secret = "";
  revision_id = r.id;
  status = r.status;
}

abbrev pub add_candidate :
    WebhookSecretRevision
    → Result String
    → Result (List SecretCandidate)
    → Result (List SecretCandidate)
add_candidate r (err e) rest = err e
add_candidate r (ok secret) (err e) = err e
add_candidate r (ok secret) (ok cs) = ok (decrypted_candidate r secret ∷ cs)

-- The list of the candidates, in the order of the rows.
unfoldable pub github_candidates :
    Platform → List WebhookSecretRevision → Result (List SecretCandidate)
unfolding decrypt_secret_from_storage
github_candidates p [] = ok []
github_candidates p (r ∷ rs) =
    add_candidate r (decrypt_secret_from_storage p r.encrypted_secret) (github_candidates p rs)

abbrev any_candidate : List SecretCandidate → Bool
any_candidate [] = false
any_candidate (c ∷ cs) = true

abbrev pub verification_input :
    ProcessGitHubEventCommand
    → List SecretCandidate
    → GitHubSignatureVerificationResult
    → SecretVerificationInput
verification_input command candidates verification = record {
  has_any_secret = any_candidate candidates;
  signature_header = command.signature_header;
  signature_is_valid = verification.signature_is_valid;
  matched_secret_revision_id = verification.matched_revision_id;
  matched_secret_status = verification.matched_revision_status;
}

abbrev pub outcome_of :
    GitHubPlatform → ProcessGitHubEventCommand → List SecretCandidate → SecretVerificationOutcome
outcome_of g command candidates = evaluate_github_secret_verification (
    verification_input command candidates (
      verify_github_webhook_signature g.hmac_hexdigest g.equal_digests candidates
        command.signature_header command.raw_body))

-- The part of process_github_event from the secrets to the outcome.
unfoldable pub verify_signature :
    GitHubPlatform → Instant → ProcessGitHubEventCommand → Session SecretVerificationOutcome
unfolding list_verification_candidates github_candidates verify_github_webhook_signature
    evaluate_github_secret_verification
verify_signature g now command = do
  secrets ← list_verification_candidates command.connection_id now
  candidates ← lift (github_candidates g.platform secrets)
  pure (outcome_of g command candidates)
