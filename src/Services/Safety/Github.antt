-- ===== src/Services/Safety/Github.antt =====
-- A whole GitHub delivery, with respect to the sync runs.
use tci.Prelude.{
  Bool, true, false, Option, none, some, List, String, not, ◌&&◌, if◌then◌else◌, ◌==◌,
}
use tci.Models.Enums.Types.{
  RepositoryProvider, SignatureStatus, WebhookHealthState, WebhookSecretRevisionStatus,
}
use tci.Models.Enums.Equality.{provider_eq, signature_status_eq}
use tci.Models.Rows.{Uuid, RepositorySyncRun, RepositoryConnection, RepositoryEvent}
use tci.Session.{
  Session, Database, pure, raise, lift, require, ◌>>=◌, ◌>>◌, problem, ProblemCode, lookup_error,
}
use tci.Session.Rules.{Preserves-if, Preserves-scope}
use tci.Persistence.Connections.{get_any, record_webhook_rejection, record_processed_event}
use tci.Persistence.Cursors.{get_cursor}
use tci.Persistence.Events.{set_event, update_processing}
use tci.Persistence.Secrets.{list_verification_candidates}
use tci.Persistence.SyncRuns.Succeeded.{HasSucceeded}
use tci.Persistence.SyncRuns.Succeeded.Operations.{Keeps-create, Keeps-update_blocked}
use tci.Webhooks.Decision.{ProviderEventDecisionOutcome}
use tci.Webhooks.GithubEvents.{ParsedGitHubEvent}
use tci.Services.Platform.{Moment}
use tci.Services.Delivery.{create_event_or_get_concurrent_delivery, is_retryable_delivery}
use tci.Services.GitlabEvent.Rejection.{rejection_of, health_of, reject_again}
use tci.Services.GitlabEvent.Rules.{resolve_current_head_sha, status_of}
use tci.Services.GithubEvent.{GitHubPlatform, ProcessGitHubEventCommand, ProcessGitHubEventResult}
use tci.Services.GithubEvent.Verification.{
  SecretVerificationOutcome, secret_is_verified, verify_signature, github_candidates, outcome_of,
}
use tci.Services.GithubEvent.Rejection.{
  check_github_connection, find_github_delivery, record_github_rejection, update_github_health,
  record_github_rejected_event, github_rejected_draft, github_problem_for,
}
use tci.Services.GithubEvent.Recording.{
  as_provider_event, record_github_delivery, refresh_github, github_accepted_draft,
  github_accepted_again,
}
use tci.Services.GithubEvent.Process.{
  decide_github, github_answer, github_request_sync, finish_github_delivery, continue_github,
  carry_out_github, with_github_delivery, with_github_head, process_github_matching, parse_github,
  process_github_verified, refuse_github, process_github_in_session, process_github_event,
  github_repository_mismatch,
}
use tci.Services.Safety.{Safe}
use tci.Services.Safety.Tables.{
  Safe-bind, Safe-required, Safe-get_by_delivery_id, Safe-set_event, Safe-update_processing,
  Safe-get_cursor, Safe-create_event_or_get, Safe-set_connection,
}
use tci.Services.Safety.Retry.{Safe-is_retryable}
use tci.Services.Safety.Queueing.{Safe-request_sync}

module _ (J : List RepositorySyncRun → Type 0) (g : GitHubPlatform) (m : Moment)
    (command : ProcessGitHubEventCommand) where
  Safe-check_github_connection : Safe J (check_github_connection command.connection_id)
  unfolding check_github_connection get_any
  Safe-check_github_connection =
      Safe-bind J (get_any command.connection_id) (λ found. require lookup_error found >>= guard)
        (λ db h. h)
        λ found. Safe-required J lookup_error found guard λ connection.
          Preserves-if (λ db. J db.sync_runs)
            (not (connection.provider == RepositoryProvider.github_cloud)) _ _ (λ db h. h)
            (λ db h. h)
    where
      guard : RepositoryConnection → Session RepositoryConnection
      guard connection =
          if not (connection.provider == RepositoryProvider.github_cloud)
          then raise (problem ProblemCode.invalid_input)
          else pure connection

  Safe-find_github_delivery : Safe J (find_github_delivery g.platform m command)
  Safe-find_github_delivery =
      Safe-get_by_delivery_id J command.connection_id command.provider_delivery_id _

  Safe-record_github_rejection :
      (status : SignatureStatus) (existing : Option RepositoryEvent)
      → Safe J (record_github_rejection g.platform m command status existing)
  Safe-record_github_rejection status none =
      Safe-bind J
        (create_event_or_get_concurrent_delivery
          (github_rejected_draft g.platform m command status))
        _ (Safe-create_event_or_get J (github_rejected_draft g.platform m command status))
        (λ r db h. h)
  Safe-record_github_rejection status (some event) =
      Preserves-if (λ db. J db.sync_runs) (event.signature_status == SignatureStatus.verified)
        (pure false) (set_event event.id (reject_again status m.now) >> pure true) (λ db h. h)
        (Safe-bind J (set_event event.id (reject_again status m.now)) (λ _. pure true)
          (Safe-set_event J event.id (reject_again status m.now)) (λ _ db h. h))

  Safe-update_github_health :
      (status : SignatureStatus) (update : Bool)
      → Safe J (update_github_health g.platform m command status update)
  unfolding record_webhook_rejection
  Safe-update_github_health status false = λ db h. h
  Safe-update_github_health status true =
      Safe-bind J
        (record_webhook_rejection command.connection_id (health_of status) (rejection_of status)
          m.now)
        (λ _. pure tt) (Safe-set_connection J command.connection_id _) (λ _ db h. h)

  Safe-refuse_github :
      (outcome : SecretVerificationOutcome) → Safe J (refuse_github g m command outcome)
  unfolding record_github_rejected_event
  Safe-refuse_github outcome =
      Safe-bind J (record_github_rejected_event g.platform m command outcome.signature_status)
        (λ _. raise (github_problem_for outcome.signature_status))
        (Safe-bind J (find_github_delivery g.platform m command)
          (λ existing.
            record_github_rejection g.platform m command outcome.signature_status existing
            >>= update_github_health g.platform m command outcome.signature_status)
          Safe-find_github_delivery
          λ existing.
            Safe-bind J
              (record_github_rejection g.platform m command outcome.signature_status existing)
              (update_github_health g.platform m command outcome.signature_status)
              (Safe-record_github_rejection outcome.signature_status existing)
              (Safe-update_github_health outcome.signature_status))
        (λ _ db h. h)

  module _ (outcome : SecretVerificationOutcome) (event : ParsedGitHubEvent) where
    Safe-refresh_github :
        (status : WebhookSecretRevisionStatus) (retryable : Bool) (i : Uuid)
        → Safe J (refresh_github g.platform m command outcome status event retryable i)
    Safe-refresh_github status true i =
        Safe-set_event J i (github_accepted_again g.platform m command outcome status event)
    Safe-refresh_github status false i = λ db h. h

    Safe-record_github_delivery :
        (status : WebhookSecretRevisionStatus) (retryable : Bool)
        (decision : ProviderEventDecisionOutcome) (existing : Option RepositoryEvent)
        → Safe J (
            record_github_delivery g.platform m command outcome status event retryable decision
              existing)
    unfolding record_github_delivery
    Safe-record_github_delivery status retryable decision none =
        Safe-create_event_or_get J
          (github_accepted_draft g.platform m command outcome status event decision)
    Safe-record_github_delivery status retryable decision (some e) =
        Safe-bind J (refresh_github g.platform m command outcome status event retryable e.id)
          (λ _. update >>= λ u. pure (u, true)) (Safe-refresh_github status retryable e.id)
          λ _.
            Safe-bind J update (λ u. pure (u, true))
              (Safe-update_processing J e.id decision.processing_decision (status_of decision) m.now
                none none (retryable && not decision.should_queue_sync))
              (λ u db h. h)
      where
        update : Session RepositoryEvent
        update =
            update_processing e.id decision.processing_decision (status_of decision) m.now none none
              (retryable && not decision.should_queue_sync)

    Safe-finish_github :
        (decision : ProviderEventDecisionOutcome) (i : Uuid)
        → Safe J (github_request_sync g m command event i decision)
        → Safe J (finish_github_delivery g m command event decision i)
    unfolding record_processed_event
    Safe-finish_github decision i asks =
        Safe-bind J (github_request_sync g m command event i decision)
          (λ request. mark >> pure (github_answer g m command i request)) asks
          λ request.
            Safe-bind J mark (λ _. pure (github_answer g m command i request))
              (Safe-set_connection J command.connection_id _) (λ _ db h. h)
      where
        mark : Session RepositoryConnection
        mark = record_processed_event command.connection_id i m.now WebhookHealthState.healthy

    abbrev AsksSafely : Type 0
    AsksSafely =
        (decision : ProviderEventDecisionOutcome) (i : Uuid)
        → Safe J (github_request_sync g m command event i decision)

    Safe-continue_github :
        (decision : ProviderEventDecisionOutcome) (recorded : RepositoryEvent × Bool)
        → AsksSafely
        → Safe J (continue_github g m command event decision recorded)
    Safe-continue_github decision (recorded, false) asks = λ db h. h
    Safe-continue_github decision (recorded, true) asks =
        Safe-finish_github decision recorded.id (asks decision recorded.id)

    Safe-carry_out_github :
        (decision : ProviderEventDecisionOutcome) (retryable : Bool)
        (existing : Option RepositoryEvent) (status : Option WebhookSecretRevisionStatus)
        → AsksSafely
        → Safe J (carry_out_github g m command outcome event decision retryable existing status)
    Safe-carry_out_github decision retryable existing none asks = λ db h. h
    Safe-carry_out_github decision retryable existing (some status) asks =
        Safe-bind J
          (record_github_delivery g.platform m command outcome status event retryable decision
            existing)
          (continue_github g m command event decision)
          (Safe-record_github_delivery status retryable decision existing)
          (λ recorded. Safe-continue_github decision recorded asks)

    Safe-process_github_matching :
        (connection : RepositoryConnection)
        → AsksSafely
        → Safe J (process_github_matching g m command connection outcome event)
    unfolding process_github_matching
    Safe-process_github_matching connection asks =
        Safe-bind J (get_cursor command.connection_id event.target_key)
          (λ cursor. head >>= with_github_head g m command connection outcome event cursor)
          (Safe-get_cursor J command.connection_id event.target_key)
          λ cursor.
            Safe-bind J head (with_github_head g m command connection outcome event cursor)
              (λ db h. h)
              λ resolved.
                Safe-bind J (find_github_delivery g.platform m command)
                  (with_github_delivery g m command connection outcome event cursor resolved)
                  Safe-find_github_delivery
                  λ existing.
                    Safe-bind J (is_retryable_delivery m.clock command.connection_id existing)
                      (λ retryable.
                        carry_out_github g m command outcome event
                          (decide_github g m command connection event cursor resolved existing
                            retryable)
                          retryable existing outcome.verified_secret_revision_status)
                      (Safe-is_retryable J m.clock command.connection_id existing)
                      (λ retryable.
                        Safe-carry_out_github
                          (decide_github g m command connection event cursor resolved existing
                            retryable)
                          retryable existing outcome.verified_secret_revision_status asks)
      where
        head : Session (Option String)
        head = lift (resolve_current_head_sha g.platform connection (as_provider_event event))

  Safe-verify_signature : Safe J (verify_signature g m.now command)
  unfolding verify_signature list_verification_candidates
  Safe-verify_signature =
      Safe-bind J (list_verification_candidates command.connection_id m.now)
        (λ secrets.
          lift (github_candidates g.platform secrets) >>= λ cs. pure (outcome_of g command cs))
        (λ db h. h)
        λ secrets.
          Safe-bind J (lift (github_candidates g.platform secrets))
            (λ cs. pure (outcome_of g command cs)) (λ db h. h) (λ cs db h. h)

  Safe-process_github_verified :
      (connection : RepositoryConnection) (outcome : SecretVerificationOutcome)
      → ((event : ParsedGitHubEvent) → AsksSafely outcome event)
      → Safe J (process_github_verified g m command connection outcome)
  unfolding parse_github
  Safe-process_github_verified connection outcome asks =
      Safe-bind J (parse_github g m command)
        (λ event.
          if github_repository_mismatch connection event
          then raise (problem ProblemCode.invalid_input)
          else process_github_matching g m command connection outcome event)
        (λ db h. h)
        λ event.
          Preserves-if (λ db. J db.sync_runs) (github_repository_mismatch connection event) _ _
            (λ db h. h) (Safe-process_github_matching outcome event connection (asks event))

  Safe-github_in_session :
      ((event : ParsedGitHubEvent) (decision : ProviderEventDecisionOutcome) (i : Uuid)
        → Safe J (github_request_sync g m command event i decision))
      → Safe J (process_github_in_session g m command)
  unfolding process_github_in_session
  Safe-github_in_session asks =
      Safe-bind J (check_github_connection command.connection_id) after Safe-check_github_connection
        λ connection.
          Safe-bind J (verify_signature g m.now command) (branch connection) Safe-verify_signature
            λ outcome.
              Preserves-if (λ db. J db.sync_runs) (secret_is_verified outcome) _ _
                (Safe-process_github_verified connection outcome asks) (Safe-refuse_github outcome)
    where
      branch : RepositoryConnection → SecretVerificationOutcome → Session ProcessGitHubEventResult
      branch connection outcome =
          if secret_is_verified outcome
          then process_github_verified g m command connection outcome
          else refuse_github g m command outcome

      after : RepositoryConnection → Session ProcessGitHubEventResult
      after connection = verify_signature g m.now command >>= branch connection

-- No GitHub delivery, whatever it holds and however it ends, takes a succeeded sync run away or out
-- of its status.
pub github_keeps_succeeded :
    (g : GitHubPlatform) (m : Moment) (command : ProcessGitHubEventCommand) (c i : Uuid)
    (db : Database)
    → HasSucceeded c i db.sync_runs
    → HasSucceeded c i (process_github_event g m command db).1.sync_runs
unfolding process_github_event
github_keeps_succeeded g m command c i =
    Preserves-scope (λ db. HasSucceeded c i db.sync_runs) (process_github_in_session g m command)
      (Safe-github_in_session (HasSucceeded c i) g m command λ event decision e.
        Safe-request_sync (HasSucceeded c i) (Keeps-create c i) (Keeps-update_blocked c i) m
          command.connection_id (as_provider_event event) e decision)
