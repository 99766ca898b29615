-- ===== src/Services/GitlabEvent/Rejection.antt =====
-- The token check of a delivery, and what is recorded of one that fails it.
use tci.Prelude.{
  Bool, true, false, not, ◌&&◌, ◌||◌, Option, none, some, List, [], ◌∷◌, String, if◌then◌else◌,
  ◌==◌, string_eq, ltb,
}
use tci.Prelude.Text.{len}
use tci.Models.Enums.Types.{
  ProviderEventIdempotencySource, ProcessingDecision, EventProcessingStatus, SignatureStatus,
  WebhookRejectionReason, WebhookHealthState, ProviderEventType, EventTargetKind, DomainEventType,
  RepositoryProvider,
}
use tci.Models.Enums.Equality.{provider_eq, signature_status_eq}
use tci.Models.Rows.{Uuid, Instant, RepositoryEvent, RepositoryConnection, WebhookSecretRevision}
use tci.Session.{
  Session, Result, ok, err, pure, raise, lift, require, problem, ProblemCode, ◌>>=◌, ◌>>◌,
  lookup_error, Error, session_scope,
}
use tci.Persistence.Connections.{get_any, record_webhook_rejection}
use tci.Persistence.Secrets.{list_verification_candidates}
use tci.Persistence.Events.{get_by_delivery_id, set_event}
use tci.Webhooks.TokenVerifier.{
  GitLabTokenCandidate, GitLabTokenVerificationOutcome, evaluate_gitlab_token_verification,
  is_verified,
}
use tci.Webhooks.Json.{no_members}
use tci.Webhooks.GitlabEvents.{push_hook, tag_push_hook, merge_request_hook}
use tci.Services.Platform.{Platform, Moment, decrypt_secret_from_storage}
use tci.Services.Delivery.{create_event_or_get_concurrent_delivery}
use tci.Services.GitlabEvent.{ProcessGitLabEventCommand}

-- `_build_verification_candidate`, whose candidates are rows: an empty stored secret stays empty.
abbrev candidate_of : WebhookSecretRevision → String → GitLabTokenCandidate
candidate_of r secret = record { revision_id = r.id; secret = secret; status = r.status }

unfoldable pub build_verification_candidate :
    Platform → WebhookSecretRevision → Result GitLabTokenCandidate
unfolding decrypt_secret_from_storage
build_verification_candidate p r =
    if r.encrypted_secret == ""
    then ok (candidate_of r "")
    else (elim (decrypt_secret_from_storage p r.encrypted_secret) [
      | ok secret ↦ ok (candidate_of r secret)
      | err e ↦ err e
    ])

abbrev pub collect :
    Result GitLabTokenCandidate
    → Result (List GitLabTokenCandidate)
    → Result (List GitLabTokenCandidate)
collect (err e) rest = err e
collect (ok c) (err e) = err e
collect (ok c) (ok cs) = ok (c ∷ cs)

unfoldable pub build_candidates :
    Platform → List WebhookSecretRevision → Result (List GitLabTokenCandidate)
unfolding build_verification_candidate
build_candidates p [] = ok []
build_candidates p (r ∷ rs) = collect (build_verification_candidate p r) (build_candidates p rs)

-- The lookup of the connection and the check of the token, with which both entry points begin.
unfoldable pub check_connection : Uuid → Session RepositoryConnection
unfolding get_any
check_connection connection_id = do
  found ← get_any connection_id
  connection ← require lookup_error found
  if not (connection.provider == RepositoryProvider.gitlab_self_managed)
      then raise (problem ProblemCode.invalid_input)
      else pure connection

unfoldable pub verify_token :
    Platform → Instant → Uuid → Option String → Session GitLabTokenVerificationOutcome
unfolding list_verification_candidates build_candidates evaluate_gitlab_token_verification
verify_token p now connection_id token_header = do
  secrets ← list_verification_candidates connection_id now
  candidates ← lift (build_candidates p secrets)
  lift (
      evaluate_gitlab_token_verification p.compare_digest record {
        token_header = token_header;
        candidates = candidates;
        active_secret = none;
        active_secret_revision_id = none;
      })

-- `_provider_event_type_for`
unfoldable pub provider_event_type_for : String → ProviderEventType
provider_event_type_for name =
    if name == push_hook || name == tag_push_hook
    then ProviderEventType.push
    else if name == merge_request_hook
    then ProviderEventType.merge_request
    else ProviderEventType.unknown

-- `_target_kind_for`
unfoldable pub target_kind_for : String → EventTargetKind
target_kind_for name =
    if name == push_hook || name == tag_push_hook
    then EventTargetKind.default_ref
    else if name == merge_request_hook
    then EventTargetKind.merge_request_source
    else EventTargetKind.none_target

-- `WebhookRejectionReason(signature_status)` and the table of the health states. The verifier gives
-- no other status to an unverified token than the first two.
abbrev pub rejection_of : SignatureStatus → WebhookRejectionReason
rejection_of SignatureStatus.secret_missing = WebhookRejectionReason.secret_missing
rejection_of SignatureStatus.secret_mismatch = WebhookRejectionReason.secret_mismatch
rejection_of _ = WebhookRejectionReason.signature_invalid

abbrev pub health_of : SignatureStatus → WebhookHealthState
health_of SignatureStatus.secret_missing = WebhookHealthState.missing_secret
health_of SignatureStatus.secret_mismatch = WebhookHealthState.secret_mismatch_detected
health_of _ = WebhookHealthState.signature_invalid_recently

-- `_problem_for_signature_status`
abbrev pub problem_for_signature_status : SignatureStatus → Error
problem_for_signature_status SignatureStatus.secret_missing =
    problem ProblemCode.webhook_secret_missing
problem_for_signature_status _ = problem ProblemCode.webhook_secret_mismatch

abbrev pub from_header : ProviderEventIdempotencySource → Bool
from_header ProviderEventIdempotencySource.derived_hash = false
from_header _ = true

abbrev pub rejected_draft :
    Platform → Moment → ProcessGitLabEventCommand → SignatureStatus → RepositoryEvent
rejected_draft p m command status = record {
  id = m.event_uuid;
  connection_id = command.connection_id;
  provider_delivery_id = command.provider_delivery_id;
  provider_event_idempotency_source = command.provider_event_idempotency_source;
  provider_event_type = provider_event_type_for command.provider_event_name;
  provider_action = none;
  domain_event_type = DomainEventType.signature_rejected;
  target_kind = target_kind_for command.provider_event_name;
  target_key = "none";
  target_ref_name = none;
  target_head_sha = none;
  occurred_at = m.now;
  received_at = m.now;
  processed_at = some m.now;
  signature_status = status;
  verified_secret_revision_status = none;
  verified_secret_revision_id = none;
  rejection_reason = some (rejection_of status);
  processing_decision = ProcessingDecision.rejected;
  processing_status = EventProcessingStatus.rejected;
  payload_hash = p.sha256_hexdigest command.raw_body;
  sync_run_id = none;
  snapshot_id = none;
}

abbrev pub reject_again : SignatureStatus → Instant → RepositoryEvent → RepositoryEvent
reject_again status at e = record e {
  signature_status = status;
  verified_secret_revision_id = none;
  verified_secret_revision_status = none;
  rejection_reason = some (rejection_of status);
  processing_decision = ProcessingDecision.rejected;
  processing_status = EventProcessingStatus.rejected;
  processed_at = some at;
}

-- The event of the rejected delivery is recorded; the answer is `should_update_connection_health`.
abbrev pub record_rejection :
    Platform
    → Moment
    → ProcessGitLabEventCommand
    → SignatureStatus
    → Option RepositoryEvent
    → Session Bool
record_rejection p m command status none = do
  (event, created) ← create_event_or_get_concurrent_delivery (rejected_draft p m command status)
  pure (
      from_header command.provider_event_idempotency_source
      && not (not created && event.signature_status == SignatureStatus.verified))
record_rejection p m command status (some event) =
    if event.signature_status == SignatureStatus.verified then pure false else do
      set_event event.id (reject_again status m.now)
      pure (from_header command.provider_event_idempotency_source)

-- `_record_rejected_event`
unfoldable pub record_rejected_event :
    Platform → Moment → ProcessGitLabEventCommand → SignatureStatus → Session Unit
unfolding get_by_delivery_id create_event_or_get_concurrent_delivery set_event
    record_webhook_rejection provider_event_type_for target_kind_for
record_rejected_event p m command status = do
  existing ←
      get_by_delivery_id command.connection_id command.provider_delivery_id
        command.provider_event_idempotency_source
  should_update_connection_health ← record_rejection p m command status existing
  if not should_update_connection_health then pure tt else do
    record_webhook_rejection command.connection_id (health_of status) (rejection_of status) m.now
    pure tt

abbrev reject_preflight :
    Platform
    → Moment
    → Uuid
    → String
    → Option String
    → SignatureStatus
    → Option String
    → Option ProviderEventIdempotencySource
    → Session Unit
reject_preflight p m c name header status (some delivery_id) (some source) = do
  record_rejected_event p m
      record {
        connection_id = c;
        provider_delivery_id = delivery_id;
        provider_event_idempotency_source = source;
        provider_event_name = name;
        token_header = header;
        raw_body = "";
        payload = no_members;
      }
      status
  raise (problem_for_signature_status status)
reject_preflight p m c name header status _ _ = do
  record_webhook_rejection c (health_of status) (rejection_of status) m.now
  raise (problem_for_signature_status status)

abbrev too_long : Option String → Bool
too_long none = false
too_long (some delivery_id) = ltb 255 (len delivery_id)

-- `preflight_gitlab_webhook_token`, with a session factory.
unfoldable pub preflight_gitlab_webhook_token :
    Platform
    → Moment
    → Uuid
    → String
    → Option String
    → Option String
    → Option ProviderEventIdempotencySource
    → Session Unit
unfolding check_connection verify_token record_rejected_event session_scope
preflight_gitlab_webhook_token p m connection_id name header delivery_id source =
    if too_long delivery_id
    then raise (problem ProblemCode.invalid_input)
    else session_scope do
      check_connection connection_id
      outcome ← verify_token p m.now connection_id header
      if is_verified outcome
          then pure tt
          else reject_preflight p m connection_id name header outcome.signature_status delivery_id
              source

abbrev note_malformed : Uuid → Instant → Option RepositoryConnection → Session Unit
note_malformed connection_id at none = pure tt
note_malformed connection_id at (some connection) =
    if not (connection.provider == RepositoryProvider.gitlab_self_managed) then pure tt else do
      record_webhook_rejection connection_id WebhookHealthState.signature_invalid_recently
          WebhookRejectionReason.signature_invalid at
      pure tt

-- `record_malformed_gitlab_webhook_attempt`, with a session factory.
unfoldable pub record_malformed_gitlab_webhook_attempt : Uuid → Instant → Session Unit
unfolding get_any record_webhook_rejection session_scope
record_malformed_gitlab_webhook_attempt connection_id rejected_at =
    session_scope
      do connection ← get_any connection_id; note_malformed connection_id rejected_at connection
