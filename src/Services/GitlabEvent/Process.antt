-- ===== src/Services/GitlabEvent/Process.antt =====
-- `process_gitlab_event`, with a session factory: one transaction from the token to the answer.
pub mod Laws
use tci.Prelude.{
  Bool, true, false, not, ◌&&◌, ◌||◌, Option, none, some, String, if◌then◌else◌, is_some,
}
use tci.Models.Enums.Types.{WebhookHealthState}
use tci.Models.Rows.{Uuid, RepositoryConnection, RepositoryEvent, RepositoryEventCursor}
use tci.Session.{
  Session, Result, ok, err, pure, raise, lift, problem, ProblemCode, session_scope, ◌>>=◌, ◌>>◌,
  value_error,
}
use tci.Persistence.Connections.{
  record_processed_event, record_processed_event_preserving_webhook_health,
}
use tci.Persistence.Cursors.{get_cursor}
use tci.Persistence.Events.{get_by_delivery_id}
use tci.Webhooks.TokenVerifier.{GitLabTokenVerificationOutcome, is_verified}
use tci.Webhooks.Decision.{decide_provider_event_processing, ProviderEventDecisionOutcome}
use tci.Webhooks.GitlabEvents.{ParsedProviderEvent, parse_gitlab_event_payload}
use tci.Services.Platform.{Platform, Moment}
use tci.Services.Delivery.{is_retryable_delivery}
use tci.Services.GitlabEvent.{ProcessGitLabEventCommand, ProcessGitLabEventResult}
use tci.Services.GitlabEvent.Rejection.{
  check_connection, verify_token, record_rejected_event, problem_for_signature_status,
}
use tci.Services.GitlabEvent.Rules.{
  resolve_current_head_sha, repository_mismatch, effective_provider_event_type, is_code_moving,
  override, should_mark_webhook_healthy, is_unsupported_fork,
}
use tci.Services.GitlabEvent.Recording.{
  record_delivery, record_commit_events, record_payload_rejected_event,
}
use tci.Services.GitlabEvent.Queueing.{SyncRequest, request_sync}

-- `except ValueError`
abbrev pub parsed_or_problem : Result ParsedProviderEvent → Result ParsedProviderEvent
parsed_or_problem (ok event) = ok event
parsed_or_problem (err value_error) = err (problem ProblemCode.invalid_input)
parsed_or_problem (err e) = err e

abbrev latest_head : Option RepositoryEventCursor → Option String
latest_head none = none
latest_head (some cursor) = some cursor.latest_head_sha

module _ (p : Platform) (m : Moment) (command : ProcessGitLabEventCommand) where
  -- The decision, the two overrides included.
  abbrev pub decide :
      RepositoryConnection
      → ParsedProviderEvent
      → Option RepositoryEventCursor
      → Option String
      → Option RepositoryEvent
      → Bool
      → ProviderEventDecisionOutcome
  decide connection event cursor resolved existing retryable = override connection event (
      decide_provider_event_processing record {
        provider_event_type = effective_provider_event_type connection event;
        provider_action = event.provider_action;
        target_head_sha = event.target_head_sha;
        delivery_already_seen = is_some existing;
        latest_cursor_head_sha = latest_head cursor;
        resolved_current_head_sha = resolved;
        retryable_delivery = retryable;
        is_code_moving = is_code_moving event (latest_head cursor);
      })

  abbrev pub mark_processed : ProviderEventDecisionOutcome → Uuid → Session Unit
  mark_processed decision event_id = do
    if should_mark_webhook_healthy decision
        then record_processed_event command.connection_id event_id m.now WebhookHealthState.healthy
        else record_processed_event_preserving_webhook_health command.connection_id event_id m.now
    pure tt

  abbrev pub answer : Uuid → SyncRequest → ProcessGitLabEventResult
  answer event_id request = record {
    event_id = event_id;
    provider_delivery_id = command.provider_delivery_id;
    sync_run_id = request.sync_run_id;
    should_enqueue_sync = request.should_enqueue_sync;
    dispatch_event_id = request.dispatch_event_id;
  }

  abbrev pub finish_delivery :
      GitLabTokenVerificationOutcome
      → ParsedProviderEvent
      → ProviderEventDecisionOutcome
      → Uuid
      → Session ProcessGitLabEventResult
  finish_delivery outcome event decision event_id = do
    request ← request_sync m command.connection_id event event_id decision
    record_commit_events p m command outcome event event.commit_shas
    mark_processed decision event_id
    pure (answer event_id request)

  -- What follows once the event of the delivery is recorded.
  abbrev pub continue_with :
      GitLabTokenVerificationOutcome
      → ParsedProviderEvent
      → ProviderEventDecisionOutcome
      → RepositoryEvent × Bool
      → Session ProcessGitLabEventResult
  continue_with outcome event decision (recorded, false) = pure record {
    event_id = recorded.id;
    provider_delivery_id = command.provider_delivery_id;
    sync_run_id = recorded.sync_run_id;
    should_enqueue_sync = false;
    dispatch_event_id = none;
  }
  continue_with outcome event decision (recorded, true) =
      finish_delivery outcome event decision recorded.id

  abbrev pub carry_out :
      GitLabTokenVerificationOutcome
      → ParsedProviderEvent
      → ProviderEventDecisionOutcome
      → Bool
      → Option RepositoryEvent
      → Session ProcessGitLabEventResult
  carry_out outcome event decision retryable existing = do
    recorded ← record_delivery p m command outcome event retryable decision existing
    continue_with outcome event decision recorded

  abbrev pub find_delivery : Session (Option RepositoryEvent)
  find_delivery =
      get_by_delivery_id command.connection_id command.provider_delivery_id
        command.provider_event_idempotency_source

  abbrev pub with_existing :
      RepositoryConnection
      → GitLabTokenVerificationOutcome
      → ParsedProviderEvent
      → Option RepositoryEventCursor
      → Option String
      → Option RepositoryEvent
      → Session ProcessGitLabEventResult
  with_existing connection outcome event cursor resolved existing = do
    retryable ← is_retryable_delivery m.clock command.connection_id existing
    carry_out outcome event (decide connection event cursor resolved existing retryable) retryable
        existing

  abbrev pub with_head :
      RepositoryConnection
      → GitLabTokenVerificationOutcome
      → ParsedProviderEvent
      → Option RepositoryEventCursor
      → Option String
      → Session ProcessGitLabEventResult
  with_head connection outcome event cursor resolved = do
    existing ← find_delivery
    with_existing connection outcome event cursor resolved existing

  -- The delivery of a repository that matches the connection.
  unfoldable pub process_matching :
      RepositoryConnection
      → GitLabTokenVerificationOutcome
      → ParsedProviderEvent
      → Session ProcessGitLabEventResult
  unfolding get_cursor resolve_current_head_sha decide_provider_event_processing
      effective_provider_event_type is_code_moving is_unsupported_fork get_by_delivery_id
      is_retryable_delivery record_delivery request_sync record_commit_events record_processed_event
      record_processed_event_preserving_webhook_health
  process_matching connection outcome event = do
    cursor ← get_cursor command.connection_id event.target_key
    resolved ← lift (resolve_current_head_sha p connection event)
    with_head connection outcome event cursor resolved

  unfoldable pub parse : Session ParsedProviderEvent
  unfolding parse_gitlab_event_payload
  parse = lift (
      parsed_or_problem (
        parse_gitlab_event_payload p.show_container command.provider_event_name command.payload
          m.now))

  abbrev pub process_verified :
      RepositoryConnection → GitLabTokenVerificationOutcome → Session ProcessGitLabEventResult
  process_verified connection outcome = do
    event ← parse
    if not (repository_mismatch p connection event)
        then process_matching connection outcome event
        else do
          record_payload_rejected_event p m command outcome event
          raise (problem ProblemCode.invalid_input)

  abbrev pub refuse : GitLabTokenVerificationOutcome → Session ProcessGitLabEventResult
  refuse outcome = do
    record_rejected_event p m command outcome.signature_status
    raise (problem_for_signature_status outcome.signature_status)

  -- The block of the session.
  unfoldable pub process_in_session : Session ProcessGitLabEventResult
  unfolding check_connection verify_token record_rejected_event parse repository_mismatch
      process_matching record_payload_rejected_event
  process_in_session = do
    connection ← check_connection command.connection_id
    outcome ← verify_token p m.now command.connection_id command.token_header
    if is_verified outcome then process_verified connection outcome else refuse outcome

  unfoldable pub process_gitlab_event : Session ProcessGitLabEventResult
  unfolding process_in_session session_scope
  process_gitlab_event = session_scope process_in_session
