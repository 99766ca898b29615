-- ===== src/Services/GithubEvent/Process.antt =====
-- `process_github_event`, with a session factory: one transaction from the signature to the answer.
pub mod Laws
use Prim.Native.String.{◌++◌ as concat}
use tci.Prelude.{
  Bool, true, false, not, Option, none, some, String, if◌then◌else◌, ◌==◌, string_eq, is_some,
}
use tci.Models.Enums.Types.{WebhookHealthState, WebhookSecretRevisionStatus}
use tci.Models.Rows.{Uuid, RepositoryConnection, RepositoryEvent, RepositoryEventCursor}
use tci.Session.{
  Session, Result, ok, err, pure, raise, lift, problem, ProblemCode, session_scope, ◌>>=◌, ◌>>◌,
  value_error, runtime_error,
}
use tci.Persistence.Connections.{record_processed_event}
use tci.Persistence.Cursors.{get_cursor}
use tci.Webhooks.Decision.{ProviderEventDecisionOutcome}
use tci.Webhooks.GithubDecision.{decide_github_event_processing}
use tci.Webhooks.GithubEvents.{ParsedGitHubEvent, parse_github_event_payload}
use tci.Services.Platform.{Moment}
use tci.Services.Delivery.{is_retryable_delivery}
use tci.Services.GitlabEvent.Rules.{resolve_current_head_sha, effective_provider_event_type}
use tci.Services.GitlabEvent.Queueing.{SyncRequest, request_sync}
use tci.Services.GithubEvent.{GitHubPlatform, ProcessGitHubEventCommand, ProcessGitHubEventResult}
use tci.Services.GithubEvent.Verification.{
  SecretVerificationOutcome, secret_is_verified, verify_signature,
}
use tci.Services.GithubEvent.Rejection.{
  check_github_connection, find_github_delivery, record_github_rejected_event, github_problem_for,
}
use tci.Services.GithubEvent.Recording.{as_provider_event, record_github_delivery}

-- `except ValueError`
abbrev pub github_parsed_or_problem : Result ParsedGitHubEvent → Result ParsedGitHubEvent
github_parsed_or_problem (ok event) = ok event
github_parsed_or_problem (err value_error) = err (problem ProblemCode.invalid_input)
github_parsed_or_problem (err e) = err e

abbrev names_other : String → Option String → Bool
names_other expected none = false
names_other expected (some name) = not (name == expected)

-- `_validate_repository_match`: whether it raises its invalid_input problem.
unfoldable pub github_repository_mismatch : RepositoryConnection → ParsedGitHubEvent → Bool
github_repository_mismatch connection event =
    names_other (concat connection.repository_owner (concat "/" connection.repository_name))
      event.repository_full_name

abbrev latest_head : Option RepositoryEventCursor → Option String
latest_head none = none
latest_head (some cursor) = some cursor.latest_head_sha

module _ (g : GitHubPlatform) (m : Moment) (command : ProcessGitHubEventCommand) where
  abbrev pub decide_github :
      RepositoryConnection
      → ParsedGitHubEvent
      → Option RepositoryEventCursor
      → Option String
      → Option RepositoryEvent
      → Bool
      → ProviderEventDecisionOutcome
  decide_github connection event cursor resolved existing retryable =
      decide_github_event_processing record {
        provider_event_type = effective_provider_event_type connection (as_provider_event event);
        provider_action = event.provider_action;
        target_head_sha = event.target_head_sha;
        delivery_already_seen = is_some existing;
        latest_cursor_head_sha = latest_head cursor;
        resolved_current_head_sha = resolved;
        retryable_delivery = retryable;
      }

  abbrev pub github_answer : Uuid → SyncRequest → ProcessGitHubEventResult
  github_answer event_id request = record {
    event_id = event_id;
    provider_delivery_id = command.provider_delivery_id;
    sync_run_id = request.sync_run_id;
    should_enqueue_sync = request.should_enqueue_sync;
    dispatch_event_id = request.dispatch_event_id;
  }

  -- The branch that finds or creates the sync run has the text of process_gitlab_event's.
  abbrev pub github_request_sync :
      ParsedGitHubEvent → Uuid → ProviderEventDecisionOutcome → Session SyncRequest
  github_request_sync event event_id decision =
      request_sync m command.connection_id (as_provider_event event) event_id decision

  abbrev pub finish_github_delivery :
      ParsedGitHubEvent → ProviderEventDecisionOutcome → Uuid → Session ProcessGitHubEventResult
  finish_github_delivery event decision event_id = do
    request ← github_request_sync event event_id decision
    record_processed_event command.connection_id event_id m.now WebhookHealthState.healthy
    pure (github_answer event_id request)

  -- What follows once the event of the delivery is recorded.
  abbrev pub continue_github :
      ParsedGitHubEvent
      → ProviderEventDecisionOutcome
      → RepositoryEvent × Bool
      → Session ProcessGitHubEventResult
  continue_github event decision (recorded, false) = pure record {
    event_id = recorded.id;
    provider_delivery_id = command.provider_delivery_id;
    sync_run_id = recorded.sync_run_id;
    should_enqueue_sync = false;
    dispatch_event_id = none;
  }
  continue_github event decision (recorded, true) =
      finish_github_delivery event decision recorded.id

  abbrev pub carry_out_github :
      SecretVerificationOutcome
      → ParsedGitHubEvent
      → ProviderEventDecisionOutcome
      → Bool
      → Option RepositoryEvent
      → Option WebhookSecretRevisionStatus
      → Session ProcessGitHubEventResult
  carry_out_github outcome event decision retryable existing none = raise runtime_error
  carry_out_github outcome event decision retryable existing (some status) = do
    recorded ←
        record_github_delivery g.platform m command outcome status event retryable decision existing
    continue_github event decision recorded

  abbrev pub with_github_delivery :
      RepositoryConnection
      → SecretVerificationOutcome
      → ParsedGitHubEvent
      → Option RepositoryEventCursor
      → Option String
      → Option RepositoryEvent
      → Session ProcessGitHubEventResult
  with_github_delivery connection outcome event cursor resolved existing = do
    retryable ← is_retryable_delivery m.clock command.connection_id existing
    carry_out_github outcome event
        (decide_github connection event cursor resolved existing retryable) retryable existing
        outcome.verified_secret_revision_status

  abbrev pub with_github_head :
      RepositoryConnection
      → SecretVerificationOutcome
      → ParsedGitHubEvent
      → Option RepositoryEventCursor
      → Option String
      → Session ProcessGitHubEventResult
  with_github_head connection outcome event cursor resolved = do
    existing ← find_github_delivery g.platform m command
    with_github_delivery connection outcome event cursor resolved existing

  -- The delivery of a repository that matches the connection.
  unfoldable pub process_github_matching :
      RepositoryConnection
      → SecretVerificationOutcome
      → ParsedGitHubEvent
      → Session ProcessGitHubEventResult
  unfolding get_cursor resolve_current_head_sha decide_github_event_processing
      effective_provider_event_type is_retryable_delivery record_github_delivery request_sync
      record_processed_event
  process_github_matching connection outcome event = do
    cursor ← get_cursor command.connection_id event.target_key
    resolved ← lift (resolve_current_head_sha g.platform connection (as_provider_event event))
    with_github_head connection outcome event cursor resolved

  unfoldable pub parse_github : Session ParsedGitHubEvent
  unfolding parse_github_event_payload
  parse_github = lift (
      github_parsed_or_problem (
        parse_github_event_payload g.platform.show_container command.provider_event_name
          command.payload m.now))

  abbrev pub process_github_verified :
      RepositoryConnection → SecretVerificationOutcome → Session ProcessGitHubEventResult
  process_github_verified connection outcome = do
    event ← parse_github
    if github_repository_mismatch connection event
        then raise (problem ProblemCode.invalid_input)
        else process_github_matching connection outcome event

  abbrev pub refuse_github : SecretVerificationOutcome → Session ProcessGitHubEventResult
  refuse_github outcome = do
    record_github_rejected_event g.platform m command outcome.signature_status
    raise (github_problem_for outcome.signature_status)

  -- The block of the session.
  unfoldable pub process_github_in_session : Session ProcessGitHubEventResult
  unfolding check_github_connection verify_signature record_github_rejected_event parse_github
      github_repository_mismatch process_github_matching
  process_github_in_session = do
    connection ← check_github_connection command.connection_id
    outcome ← verify_signature g m.now command
    if secret_is_verified outcome
        then process_github_verified connection outcome
        else refuse_github outcome

  unfoldable pub process_github_event : Session ProcessGitHubEventResult
  unfolding process_github_in_session session_scope
  process_github_event = session_scope process_github_in_session
