-- ===== src/Tests/Texts.antt =====
-- Tokens, signatures, payloads and decisions.
use tci.Prelude.{
  ◌≡◌, refl, ◌↔◌, true, false, Bool, Option, none, some, [], ◌∷◌, String, ◌==◌, string_eq, List,
}
use tci.Models.Enums.Types.{ProviderEventType, WebhookSecretRevisionStatus}
use tci.Session.{ok, Result}
use tci.Webhooks.Decision.{ProviderEventDecisionInput, decide_provider_event_processing}
use tci.Webhooks.Decision.Laws.{AsksForSync, queues_iff}
use tci.Webhooks.TokenVerifier.{
  GitLabTokenVerificationInput, evaluate_gitlab_token_verification, verification_candidates,
}
use tci.Webhooks.TokenVerifier.Laws.{reference, evaluate-reference}
use tci.Webhooks.GithubSignature.{SecretCandidate, verify_github_webhook_signature}
use tci.Webhooks.GithubSignature.Laws.{IsDigest, digest_of, signature-valid_iff}
use tci.Webhooks.Json.{Json}
use tci.Webhooks.GitlabEvents.{parse_gitlab_event_payload, commit_shas_from_push}
use tci.Webhooks.GitlabEvents.CommitShas.{IsCommitList, commit_shas-IsCommitList}
use tci.Webhooks.GitlabEvents.Laws.{IsUsable, parse-IsUsable}
use tci.Tests.{push_payload}

abbrev pushed : ProviderEventDecisionInput
pushed = record {
  provider_event_type = ProviderEventType.push;
  provider_action = none;
  target_head_sha = some "c0ffee";
  delivery_already_seen = false;
  latest_cursor_head_sha = some "decade";
  resolved_current_head_sha = some "c0ffee";
  retryable_delivery = false;
  is_code_moving = true;
}

queues_iff_example :
    ((decide_provider_event_processing pushed).should_queue_sync ≡ true) ↔ AsksForSync pushed
queues_iff_example = queues_iff pushed

abbrev compare : String → String → Result Bool
compare a b = ok (a == b)

abbrev two_tokens : GitLabTokenVerificationInput
two_tokens = record {
  token_header = some "old";
  candidates =
      record { revision_id = 4; secret = "new"; status = WebhookSecretRevisionStatus.active }
      ∷ record {
        revision_id = 3;
        secret = "old";
        status = WebhookSecretRevisionStatus.previous_grace;
      }
      ∷ [];
  active_secret = none;
  active_secret_revision_id = none;
}

evaluate-reference_example :
    evaluate_gitlab_token_verification compare two_tokens
    ≡ ok (reference (verification_candidates two_tokens) two_tokens.token_header)
unfolding verification_candidates
evaluate-reference_example =
    evaluate-reference compare (λ s. true) (λ a b h k. refl) two_tokens refl (λ header h. refl)

abbrev digest : String
digest = "0123456789abcdef0123456789abcdef0123456789abcdef0123456789abcdef"

abbrev signers : List SecretCandidate
signers =
    record {
      secret = some "s3cret";
      encrypted_secret = "";
      revision_id = 3;
      status = WebhookSecretRevisionStatus.active;
    }
    ∷ []

abbrev hexdigest : String → String → String
hexdigest secret body = digest

abbrev equal : String → String → Bool
equal a b = a == b

abbrev header : Option String
header = some "sha256=0123456789abcdef0123456789abcdef0123456789abcdef0123456789abcdef"

signature-valid_iff_example :
    ((verify_github_webhook_signature hexdigest equal signers header "{}").signature_is_valid
      ≡ true)
    ↔ IsDigest hexdigest signers "{}" (digest_of header)
signature-valid_iff_example = signature-valid_iff hexdigest equal (λ a b. refl) signers header "{}"

abbrev braces : Json → String
braces v = "{}"

commit_shas-IsCommitList_example : IsCommitList (commit_shas_from_push braces push_payload)
commit_shas-IsCommitList_example = commit_shas-IsCommitList braces push_payload

parse-IsUsable_example : IsUsable (parse_gitlab_event_payload braces "Push Hook" push_payload 9)
parse-IsUsable_example = parse-IsUsable braces push_payload 9 "Push Hook"
