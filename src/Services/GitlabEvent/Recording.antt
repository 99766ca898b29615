-- ===== src/Services/GitlabEvent/Recording.antt =====
-- The event of an accepted delivery, the events of its commits, and that of a refused payload.
use Prim.Native.String.{◌++◌ as concat}
use tci.Prelude.{Bool, true, false, not, ◌&&◌, Option, none, some, List, [], ◌∷◌, String}
use tci.Models.Enums.Types.{
  ProcessingDecision, EventProcessingStatus, SignatureStatus, DomainEventType,
  WebhookSecretRevisionStatus,
}
use tci.Models.Rows.{Uuid, RepositoryEvent}
use tci.Session.{Session, pure, ◌>>=◌, ◌>>◌}
use tci.Persistence.Events.{get_by_delivery_id, set_event, update_processing}
use tci.Webhooks.TokenVerifier.{GitLabTokenVerificationOutcome}
use tci.Webhooks.Decision.{ProviderEventDecisionOutcome}
use tci.Webhooks.GitlabEvents.{ParsedProviderEvent}
use tci.Services.Platform.{Platform, Moment}
use tci.Services.Delivery.{create_event_or_get_concurrent_delivery}
use tci.Services.GitlabEvent.{ProcessGitLabEventCommand}
use tci.Services.GitlabEvent.Rules.{commit_delivery_id, status_of}

-- `WebhookSecretRevisionStatus(status or "active")`
abbrev pub or_active : Option WebhookSecretRevisionStatus → WebhookSecretRevisionStatus
or_active none = WebhookSecretRevisionStatus.active
or_active (some status) = status

module _ (p : Platform) (m : Moment) (command : ProcessGitLabEventCommand)
    (outcome : GitLabTokenVerificationOutcome) (event : ParsedProviderEvent) where
  abbrev pub accepted_draft : ProviderEventDecisionOutcome → RepositoryEvent
  accepted_draft decision = record {
    id = m.event_uuid;
    connection_id = command.connection_id;
    provider_delivery_id = command.provider_delivery_id;
    provider_event_idempotency_source = command.provider_event_idempotency_source;
    provider_event_type = event.provider_event_type;
    provider_action = event.provider_action;
    domain_event_type = event.domain_event_type;
    target_kind = event.target_kind;
    target_key = event.target_key;
    target_ref_name = event.target_ref_name;
    target_head_sha = event.target_head_sha;
    occurred_at = event.occurred_at;
    received_at = m.now;
    processed_at = some m.now;
    signature_status = SignatureStatus.verified;
    verified_secret_revision_status = some (or_active outcome.verified_secret_revision_status);
    verified_secret_revision_id = outcome.verified_secret_revision_id;
    rejection_reason = none;
    processing_decision = decision.processing_decision;
    processing_status = status_of decision;
    payload_hash = p.sha256_hexdigest command.raw_body;
    sync_run_id = none;
    snapshot_id = none;
  }

  -- The attributes that a retried delivery sets again.
  abbrev pub accepted_again : RepositoryEvent → RepositoryEvent
  accepted_again e = record e {
    provider_event_type = event.provider_event_type;
    provider_action = event.provider_action;
    domain_event_type = event.domain_event_type;
    target_kind = event.target_kind;
    target_key = event.target_key;
    target_ref_name = event.target_ref_name;
    target_head_sha = event.target_head_sha;
    occurred_at = event.occurred_at;
    received_at = m.now;
    signature_status = SignatureStatus.verified;
    verified_secret_revision_id = outcome.verified_secret_revision_id;
    verified_secret_revision_status = some (or_active outcome.verified_secret_revision_status);
    rejection_reason = none;
    payload_hash = p.sha256_hexdigest command.raw_body;
  }

  abbrev pub refresh : Bool → Uuid → Session Unit
  refresh true event_id = set_event event_id accepted_again
  refresh false event_id = pure tt

  -- The event of the delivery, and whether the processing goes on: it stops where a concurrent
  -- request has recorded the delivery first.
  unfoldable pub record_delivery :
      Bool
      → ProviderEventDecisionOutcome
      → Option RepositoryEvent
      → Session (RepositoryEvent × Bool)
  unfolding create_event_or_get_concurrent_delivery set_event update_processing
  record_delivery retryable decision none =
      create_event_or_get_concurrent_delivery (accepted_draft decision)
  record_delivery retryable decision (some existing) = do
    refresh retryable existing.id
    e ←
        update_processing existing.id decision.processing_decision (status_of decision) m.now none
          none (retryable && not decision.should_queue_sync)
    pure (e, true)

  abbrev pub commit_draft : String → RepositoryEvent
  commit_draft commit_sha = record {
    id = m.commit_uuid commit_sha;
    connection_id = command.connection_id;
    provider_delivery_id = commit_delivery_id p command.provider_delivery_id commit_sha;
    provider_event_idempotency_source = command.provider_event_idempotency_source;
    provider_event_type = event.provider_event_type;
    provider_action = event.provider_action;
    domain_event_type = DomainEventType.commit_recorded;
    target_kind = event.target_kind;
    target_key = concat "commit:" commit_sha;
    target_ref_name = event.target_ref_name;
    target_head_sha = some commit_sha;
    occurred_at = event.occurred_at;
    received_at = m.now;
    processed_at = some m.now;
    signature_status = SignatureStatus.verified;
    verified_secret_revision_status = some (or_active outcome.verified_secret_revision_status);
    verified_secret_revision_id = outcome.verified_secret_revision_id;
    rejection_reason = none;
    processing_decision = ProcessingDecision.record_only;
    processing_status = EventProcessingStatus.completed;
    payload_hash = p.sha256_hexdigest command.raw_body;
    sync_run_id = none;
    snapshot_id = none;
  }

  abbrev pub create_unless : RepositoryEvent → Option RepositoryEvent → Session Unit
  create_unless draft (some existing) = pure tt
  create_unless draft none = do create_event_or_get_concurrent_delivery draft; pure tt

  -- `_record_commit_events`
  unfoldable pub record_commit_events : List String → Session Unit
  unfolding get_by_delivery_id create_event_or_get_concurrent_delivery commit_delivery_id
  record_commit_events [] = pure tt
  record_commit_events (sha ∷ shas) = do
    existing ←
        get_by_delivery_id command.connection_id
          (commit_delivery_id p command.provider_delivery_id sha)
          command.provider_event_idempotency_source
    create_unless (commit_draft sha) existing
    record_commit_events shas

  abbrev pub payload_rejected_draft : RepositoryEvent
  payload_rejected_draft = record {
    id = m.event_uuid;
    connection_id = command.connection_id;
    provider_delivery_id = command.provider_delivery_id;
    provider_event_idempotency_source = command.provider_event_idempotency_source;
    provider_event_type = event.provider_event_type;
    provider_action = event.provider_action;
    domain_event_type = DomainEventType.signature_rejected;
    target_kind = event.target_kind;
    target_key = event.target_key;
    target_ref_name = event.target_ref_name;
    target_head_sha = event.target_head_sha;
    occurred_at = event.occurred_at;
    received_at = m.now;
    processed_at = some m.now;
    signature_status = SignatureStatus.verified;
    verified_secret_revision_status = some (or_active outcome.verified_secret_revision_status);
    verified_secret_revision_id = outcome.verified_secret_revision_id;
    rejection_reason = none;
    processing_decision = ProcessingDecision.rejected;
    processing_status = EventProcessingStatus.rejected;
    payload_hash = p.sha256_hexdigest command.raw_body;
    sync_run_id = none;
    snapshot_id = none;
  }

  -- `_record_payload_rejected_event`
  unfoldable pub record_payload_rejected_event : Session Unit
  unfolding get_by_delivery_id create_event_or_get_concurrent_delivery
  record_payload_rejected_event = do
    existing ←
        get_by_delivery_id command.connection_id command.provider_delivery_id
          command.provider_event_idempotency_source
    create_unless payload_rejected_draft existing
