-- ===== src/Services/GithubEvent/Rejection.antt =====
-- What is recorded of a GitHub delivery that fails the signature check.
use tci.Prelude.{
  Bool, true, false, not, ◌&&◌, Option, none, some, String, if◌then◌else◌, ◌==◌, string_eq,
}
use tci.Models.Enums.Types.{
  ProviderEventIdempotencySource, ProcessingDecision, EventProcessingStatus, SignatureStatus,
  ProviderEventType, EventTargetKind, DomainEventType, RepositoryProvider,
}
use tci.Models.Enums.Equality.{provider_eq, signature_status_eq}
use tci.Models.Rows.{Uuid, RepositoryEvent, RepositoryConnection}
use tci.Session.{
  Session, pure, raise, require, problem, ProblemCode, ◌>>=◌, ◌>>◌, lookup_error, Error,
}
use tci.Persistence.Connections.{get_any, record_webhook_rejection}
use tci.Persistence.Events.{get_by_delivery_id, set_event}
use tci.Services.Platform.{Platform, Moment}
use tci.Services.Delivery.{create_event_or_get_concurrent_delivery}
use tci.Services.GitlabEvent.Rejection.{rejection_of, health_of, reject_again}
use tci.Services.GithubEvent.{ProcessGitHubEventCommand}

-- The connection of a delivery, which must be one of GitHub.
unfoldable pub check_github_connection : Uuid → Session RepositoryConnection
unfolding get_any
check_github_connection connection_id = do
  found ← get_any connection_id
  connection ← require lookup_error found
  if not (connection.provider == RepositoryProvider.github_cloud)
      then raise (problem ProblemCode.invalid_input)
      else pure connection

-- `_provider_event_type_for`
unfoldable pub github_event_type_for : String → ProviderEventType
github_event_type_for name =
    if name == "push"
    then ProviderEventType.push
    else if name == "pull_request"
    then ProviderEventType.pull_request
    else if name == "ping"
    then ProviderEventType.ping
    else ProviderEventType.unknown

-- `_target_kind_for`
unfoldable pub github_target_kind_for : String → EventTargetKind
github_target_kind_for name =
    if name == "push"
    then EventTargetKind.default_ref
    else if name == "pull_request"
    then EventTargetKind.pull_request_source
    else EventTargetKind.none_target

-- `_problem_for_signature_status`
abbrev pub github_problem_for : SignatureStatus → Error
github_problem_for SignatureStatus.secret_missing = problem ProblemCode.webhook_secret_missing
github_problem_for SignatureStatus.secret_mismatch = problem ProblemCode.webhook_secret_mismatch
github_problem_for _ = problem ProblemCode.webhook_signature_invalid

module _ (p : Platform) (m : Moment) (command : ProcessGitHubEventCommand) where
  abbrev pub github_rejected_draft : SignatureStatus → RepositoryEvent
  github_rejected_draft status = record {
    id = m.event_uuid;
    connection_id = command.connection_id;
    provider_delivery_id = command.provider_delivery_id;
    provider_event_idempotency_source = ProviderEventIdempotencySource.delivery_header;
    provider_event_type = github_event_type_for command.provider_event_name;
    provider_action = none;
    domain_event_type = DomainEventType.signature_rejected;
    target_kind = github_target_kind_for command.provider_event_name;
    target_key = "none";
    target_ref_name = none;
    target_head_sha = none;
    occurred_at = m.now;
    received_at = m.now;
    processed_at = some m.now;
    signature_status = status;
    verified_secret_revision_status = none;
    verified_secret_revision_id = none;
    rejection_reason = some (rejection_of status);
    processing_decision = ProcessingDecision.rejected;
    processing_status = EventProcessingStatus.rejected;
    payload_hash = p.sha256_hexdigest command.raw_body;
    sync_run_id = none;
    snapshot_id = none;
  }

  abbrev pub find_github_delivery : Session (Option RepositoryEvent)
  find_github_delivery =
      get_by_delivery_id command.connection_id command.provider_delivery_id
        ProviderEventIdempotencySource.delivery_header

  -- The event of the rejected delivery is recorded; the answer is `should_update_connection_health`.
  abbrev pub record_github_rejection : SignatureStatus → Option RepositoryEvent → Session Bool
  record_github_rejection status none = do
    (event, created) ← create_event_or_get_concurrent_delivery (github_rejected_draft status)
    pure (not (not created && event.signature_status == SignatureStatus.verified))
  record_github_rejection status (some event) =
      if event.signature_status == SignatureStatus.verified
      then pure false
      else do set_event event.id (reject_again status m.now); pure true

  abbrev pub update_github_health : SignatureStatus → Bool → Session Unit
  update_github_health status should_update = if not should_update then pure tt else do
    record_webhook_rejection command.connection_id (health_of status) (rejection_of status) m.now
    pure tt

  -- `_record_rejected_event`
  unfoldable pub record_github_rejected_event : SignatureStatus → Session Unit
  unfolding get_by_delivery_id create_event_or_get_concurrent_delivery set_event
      record_webhook_rejection github_event_type_for github_target_kind_for
  record_github_rejected_event status = do
    existing ← find_github_delivery
    should_update_connection_health ← record_github_rejection status existing
    update_github_health status should_update_connection_health
