-- ===== src/Services/GithubEvent/Recording.antt =====
-- The event of an accepted GitHub delivery, as the code that follows reads it, and its row.
use tci.Prelude.{Bool, true, false, not, ◌&&◌, Option, none, some, []}
use tci.Models.Enums.Types.{
  ProviderEventIdempotencySource, SignatureStatus, WebhookSecretRevisionStatus,
}
use tci.Models.Rows.{Uuid, RepositoryEvent}
use tci.Session.{Session, pure, ◌>>=◌, ◌>>◌}
use tci.Persistence.Events.{set_event, update_processing}
use tci.Webhooks.Decision.{ProviderEventDecisionOutcome}
use tci.Webhooks.GitlabEvents.{ParsedProviderEvent}
use tci.Webhooks.GithubEvents.{ParsedGitHubEvent}
use tci.Services.Platform.{Platform, Moment}
use tci.Services.Delivery.{create_event_or_get_concurrent_delivery}
use tci.Services.GitlabEvent.Rules.{status_of}
use tci.Services.GithubEvent.{ProcessGitHubEventCommand}
use tci.Services.GithubEvent.Verification.{SecretVerificationOutcome}

-- The helpers that both services have read fields that both parsed events have. The other fields
-- are those of GitLab, which the helpers do not read.
abbrev pub as_provider_event : ParsedGitHubEvent → ParsedProviderEvent
as_provider_event event = record {
  provider_event_type = event.provider_event_type;
  provider_action = event.provider_action;
  domain_event_type = event.domain_event_type;
  target_kind = event.target_kind;
  repository_full_name = event.repository_full_name;
  target_key = event.target_key;
  target_ref_name = event.target_ref_name;
  target_head_sha = event.target_head_sha;
  requested_ref_type = event.requested_ref_type;
  requested_ref_name = event.requested_ref_name;
  trigger_type = event.trigger_type;
  occurred_at = event.occurred_at;
  is_code_moving = true;
  source_project_path = none;
  commit_shas = [];
}

module _ (p : Platform) (m : Moment) (command : ProcessGitHubEventCommand)
    (outcome : SecretVerificationOutcome) (verified_status : WebhookSecretRevisionStatus)
    (event : ParsedGitHubEvent) where
  abbrev pub github_accepted_draft : ProviderEventDecisionOutcome → RepositoryEvent
  github_accepted_draft decision = record {
    id = m.event_uuid;
    connection_id = command.connection_id;
    provider_delivery_id = command.provider_delivery_id;
    provider_event_idempotency_source = ProviderEventIdempotencySource.delivery_header;
    provider_event_type = event.provider_event_type;
    provider_action = event.provider_action;
    domain_event_type = event.domain_event_type;
    target_kind = event.target_kind;
    target_key = event.target_key;
    target_ref_name = event.target_ref_name;
    target_head_sha = event.target_head_sha;
    occurred_at = event.occurred_at;
    received_at = m.now;
    processed_at = some m.now;
    signature_status = SignatureStatus.verified;
    verified_secret_revision_status = some verified_status;
    verified_secret_revision_id = outcome.verified_secret_revision_id;
    rejection_reason = none;
    processing_decision = decision.processing_decision;
    processing_status = status_of decision;
    payload_hash = p.sha256_hexdigest command.raw_body;
    sync_run_id = none;
    snapshot_id = none;
  }

  -- The attributes that a retried delivery sets again.
  abbrev pub github_accepted_again : RepositoryEvent → RepositoryEvent
  github_accepted_again e = record e {
    provider_event_type = event.provider_event_type;
    provider_action = event.provider_action;
    domain_event_type = event.domain_event_type;
    target_kind = event.target_kind;
    target_key = event.target_key;
    target_ref_name = event.target_ref_name;
    target_head_sha = event.target_head_sha;
    occurred_at = event.occurred_at;
    received_at = m.now;
    signature_status = SignatureStatus.verified;
    verified_secret_revision_id = outcome.verified_secret_revision_id;
    verified_secret_revision_status = some verified_status;
    rejection_reason = none;
    payload_hash = p.sha256_hexdigest command.raw_body;
  }

  abbrev pub refresh_github : Bool → Uuid → Session Unit
  refresh_github true event_id = set_event event_id github_accepted_again
  refresh_github false event_id = pure tt

  -- The event of the delivery, and whether the processing goes on.
  unfoldable pub record_github_delivery :
      Bool
      → ProviderEventDecisionOutcome
      → Option RepositoryEvent
      → Session (RepositoryEvent × Bool)
  unfolding create_event_or_get_concurrent_delivery set_event update_processing
  record_github_delivery retryable decision none =
      create_event_or_get_concurrent_delivery (github_accepted_draft decision)
  record_github_delivery retryable decision (some existing) = do
    refresh_github retryable existing.id
    e ←
        update_processing existing.id decision.processing_decision (status_of decision) m.now none
          none (retryable && not decision.should_queue_sync)
    pure (e, true)
