-- ===== src/Webhooks/TokenVerifier.antt =====
-- infrastructure/webhooks/gitlab_token_verifier.py. `hmac.compare_digest` is a parameter; on texts
-- it raises where a character is not ASCII, so its result is one that may be an error.
pub mod Laws
use tci.Prelude.{Bool, true, false, Option, none, some, List, [], ◌∷◌, String}
use tci.Models.Enums.Types.{SignatureStatus, WebhookSecretRevisionStatus}
use tci.Models.Rows.{Uuid}
use tci.Session.{Result, ok, err, Error}

pub record GitLabTokenCandidate : Type 0 where
  pub revision_id : Uuid
  pub secret : String
  pub status : WebhookSecretRevisionStatus

pub record GitLabTokenVerificationInput : Type 0 where
  pub token_header : Option String
  pub candidates : List GitLabTokenCandidate
  pub active_secret : Option String
  pub active_secret_revision_id : Option Uuid

pub record GitLabTokenVerificationOutcome : Type 0 where
  pub signature_status : SignatureStatus
  pub verified_secret_revision_id : Option Uuid
  pub verified_secret_revision_status : Option WebhookSecretRevisionStatus

abbrev pub is_verified : GitLabTokenVerificationOutcome → Bool
is_verified outcome = elim outcome.signature_status [ SignatureStatus.verified ↦ true | _ ↦ false ]

abbrev pub unverified : SignatureStatus → GitLabTokenVerificationOutcome
unverified status = record {
  signature_status = status;
  verified_secret_revision_id = none;
  verified_secret_revision_status = none;
}

abbrev active_candidate : Option String → Option Uuid → List GitLabTokenCandidate
active_candidate (some secret) (some revision) =
    record { revision_id = revision; secret = secret; status = WebhookSecretRevisionStatus.active }
    ∷ []
active_candidate _ _ = []

-- `_verification_candidates`
unfoldable pub verification_candidates : GitLabTokenVerificationInput → List GitLabTokenCandidate
verification_candidates i = elim i.candidates [
  | [] ↦ active_candidate i.active_secret i.active_secret_revision_id
  | c ∷ cs ↦ i.candidates
]

abbrev pub after_compare :
    GitLabTokenCandidate
    → Result GitLabTokenVerificationOutcome
    → Result Bool
    → Result GitLabTokenVerificationOutcome
after_compare c rest (ok true) = ok record {
  signature_status = SignatureStatus.verified;
  verified_secret_revision_id = some c.revision_id;
  verified_secret_revision_status = some c.status;
}
after_compare c rest (ok false) = rest
after_compare c rest (err e) = err e

module _ (compare_digest : String → String → Result Bool) where
  -- The loop over the candidates: the first that matches is returned.
  unfoldable pub first_match :
      String → List GitLabTokenCandidate → Result GitLabTokenVerificationOutcome
  first_match header [] = ok (unverified SignatureStatus.secret_mismatch)
  first_match header (c ∷ cs) =
      after_compare c (first_match header cs) (compare_digest c.secret header)

  abbrev pub evaluate_candidates :
      List GitLabTokenCandidate → Option String → Result GitLabTokenVerificationOutcome
  evaluate_candidates [] header = ok (unverified SignatureStatus.secret_missing)
  evaluate_candidates (c ∷ cs) none = ok (unverified SignatureStatus.secret_mismatch)
  evaluate_candidates (c ∷ cs) (some header) = first_match header (c ∷ cs)

  unfoldable pub evaluate_gitlab_token_verification :
      GitLabTokenVerificationInput → Result GitLabTokenVerificationOutcome
  unfolding verification_candidates first_match
  evaluate_gitlab_token_verification i =
      evaluate_candidates (verification_candidates i) i.token_header
