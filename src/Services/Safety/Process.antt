-- ===== src/Services/Safety/Process.antt =====
-- What a whole delivery may do to the sync runs.
use tci.Prelude.{◌≡◌, refl, false, Option, none, some, List, not, if◌then◌else◌, ◌==◌}
use tci.Models.Enums.Types.{RepositoryConnectionStatus, RepositoryProvider, SyncTriggerType}
use tci.Models.Enums.Equality.{connection_status_eq, provider_eq, processing_decision_eq}
use tci.Models.Rows.{Uuid, RepositorySyncRun, RepositoryConnection}
use tci.Session.{
  Session, Database, ok, pure, raise, lift, require, ◌>>=◌, ◌>>◌, problem, ProblemCode,
  lookup_error,
}
use tci.Session.Rules.{Preserves-if, Preserves-scope, Preserves-after, scope_at}
use tci.Persistence.Connections.{get_any}
use tci.Persistence.Secrets.{list_verification_candidates}
use tci.Persistence.SyncRuns.Succeeded.{HasSucceeded}
use tci.Persistence.SyncRuns.Succeeded.Operations.{Keeps-create, Keeps-update_blocked}
use tci.Webhooks.TokenVerifier.{
  GitLabTokenCandidate, GitLabTokenVerificationOutcome, is_verified,
  evaluate_gitlab_token_verification,
}
use tci.Webhooks.Decision.{ProviderEventDecisionOutcome, record_only}
use tci.Webhooks.GitlabEvents.{ParsedProviderEvent}
use tci.Services.Platform.{Platform, Moment}
use tci.Services.GitlabEvent.{ProcessGitLabEventCommand}
use tci.Services.GitlabEvent.Rejection.{
  check_connection, verify_token, record_rejected_event, problem_for_signature_status,
  build_candidates,
}
use tci.Services.GitlabEvent.Rules.{repository_mismatch, override}
use tci.Services.GitlabEvent.Recording.{record_payload_rejected_event}
use tci.Services.GitlabEvent.Queueing.{request_sync, no_sync, for_trigger}
use tci.Services.GitlabEvent.Process.{
  parse, process_matching, process_verified, refuse, process_in_session, process_gitlab_event,
}
use tci.Services.Safety.{Safe}
use tci.Services.Safety.Tables.{Safe-bind, Safe-required}
use tci.Services.Safety.Rejection.{Safe-record_rejected_event}
use tci.Services.Safety.Handler.{Safe-record_payload_rejected_event, Safe-process_matching}
use tci.Services.Safety.Queueing.{Safe-request_sync}

module _ (J : List RepositorySyncRun → Type 0) (p : Platform) (m : Moment)
    (command : ProcessGitLabEventCommand) where
  Safe-check_connection : Safe J (check_connection command.connection_id)
  unfolding check_connection get_any
  Safe-check_connection =
      Safe-bind J (get_any command.connection_id) (λ found. require lookup_error found >>= guard)
        (λ db h. h)
        λ found. Safe-required J lookup_error found guard λ connection.
          Preserves-if (λ db. J db.sync_runs)
            (not (connection.provider == RepositoryProvider.gitlab_self_managed)) _ _ (λ db h. h)
            (λ db h. h)
    where
      guard : RepositoryConnection → Session RepositoryConnection
      guard connection =
          if not (connection.provider == RepositoryProvider.gitlab_self_managed)
          then raise (problem ProblemCode.invalid_input)
          else pure connection

  Safe-verify_token : Safe J (verify_token p m.now command.connection_id command.token_header)
  unfolding verify_token list_verification_candidates
  Safe-verify_token =
      Safe-bind J (list_verification_candidates command.connection_id m.now)
        (λ secrets. lift (build_candidates p secrets) >>= check) (λ db h. h)
        λ secrets. Safe-bind J (lift (build_candidates p secrets)) check (λ db h. h) (λ cs db h. h)
    where
      check : List GitLabTokenCandidate → Session GitLabTokenVerificationOutcome
      check candidates = lift (
          evaluate_gitlab_token_verification p.compare_digest record {
            token_header = command.token_header;
            candidates = candidates;
            active_secret = none;
            active_secret_revision_id = none;
          })

  Safe-refuse : (outcome : GitLabTokenVerificationOutcome) → Safe J (refuse p m command outcome)
  Safe-refuse outcome =
      Safe-bind J (record_rejected_event p m command outcome.signature_status)
        (λ _. raise (problem_for_signature_status outcome.signature_status))
        (Safe-record_rejected_event J p m command outcome.signature_status) (λ _ db h. h)

  -- The request for a sync run, for every decision on an event of the connection.
  abbrev AsksSafely : RepositoryConnection → Type 0
  AsksSafely connection =
      (event : ParsedProviderEvent) (decision : ProviderEventDecisionOutcome) (i : Uuid)
      → Safe J (request_sync m command.connection_id event i (override connection event decision))

  Safe-process_verified :
      (connection : RepositoryConnection) (outcome : GitLabTokenVerificationOutcome)
      → AsksSafely connection
      → Safe J (process_verified p m command connection outcome)
  unfolding parse
  Safe-process_verified connection outcome asks =
      Safe-bind J (parse p m command)
        (λ event.
          if not (repository_mismatch p connection event)
          then process_matching p m command connection outcome event
          else (record_payload_rejected_event p m command outcome event
              >> raise (problem ProblemCode.invalid_input)))
        (λ db h. h)
        λ event.
          Preserves-if (λ db. J db.sync_runs) (not (repository_mismatch p connection event)) _ _
            (Safe-process_matching J p m command outcome event connection
              (λ cursor resolved existing retryable i. asks event _ i))
            (Safe-bind J (record_payload_rejected_event p m command outcome event)
              (λ _. raise (problem ProblemCode.invalid_input))
              (Safe-record_payload_rejected_event J p m command outcome event) (λ _ db h. h))

  Safe-after_connection :
      (connection : RepositoryConnection)
      → AsksSafely connection
      → Safe J (
          verify_token p m.now command.connection_id command.token_header >>= λ outcome.
          if is_verified outcome
          then process_verified p m command connection outcome
          else refuse p m command outcome)
  Safe-after_connection connection asks =
      Safe-bind J (verify_token p m.now command.connection_id command.token_header)
        (λ outcome.
          if is_verified outcome
          then process_verified p m command connection outcome
          else refuse p m command outcome)
        Safe-verify_token
        λ outcome.
          Preserves-if (λ db. J db.sync_runs) (is_verified outcome) _ _
            (Safe-process_verified connection outcome asks) (Safe-refuse outcome)

-- No GitLab delivery, whatever it holds and however it ends, takes a succeeded sync run away or out of its
-- status.
pub delivery_keeps_succeeded :
    (p : Platform) (m : Moment) (command : ProcessGitLabEventCommand) (c i : Uuid) (db : Database)
    → HasSucceeded c i db.sync_runs
    → HasSucceeded c i (process_gitlab_event p m command db).1.sync_runs
unfolding process_gitlab_event process_in_session
delivery_keeps_succeeded p m command c i =
    Preserves-scope (λ db. HasSucceeded c i db.sync_runs) (process_in_session p m command)
      (Safe-bind (HasSucceeded c i) (check_connection command.connection_id) _
        (Safe-check_connection (HasSucceeded c i) p m command)
        λ connection.
          Safe-after_connection (HasSucceeded c i) p m command connection λ event decision e.
            Safe-request_sync (HasSucceeded c i) (Keeps-create c i) (Keeps-update_blocked c i) m
              command.connection_id event e (override connection event decision))

inactive_asks_nothing :
    (m : Moment) (c : Uuid) (event : ParsedProviderEvent) (i : Uuid)
    (connection : RepositoryConnection) (decision : ProviderEventDecisionOutcome)
    → (connection.status == RepositoryConnectionStatus.active) ≡ false
    → request_sync m c event i (override connection event decision) ≡ pure no_sync
unfolding request_sync
inactive_asks_nothing m c event i connection decision inactive = rw inactive (go event.trigger_type)
  where
    go :
        (trigger : Option SyncTriggerType)
        → for_trigger m c event i record_only trigger ≡ pure no_sync
    go none = refl
    go (some trigger) = refl

-- A GitLab delivery to a connection that is not active changes no sync run and adds none.
pub inactive_changes_no_run :
    (p : Platform) (m : Moment) (command : ProcessGitLabEventCommand) (db : Database)
    (connection : RepositoryConnection)
    → (check_connection command.connection_id db).0 ≡ ok connection
    → (connection.status == RepositoryConnectionStatus.active) ≡ false
    → (process_gitlab_event p m command db).1.sync_runs ≡ db.sync_runs
unfolding process_gitlab_event process_in_session
inactive_changes_no_run p m command db connection found inactive =
    scope_at (λ d. d.sync_runs ≡ db.sync_runs) (process_in_session p m command) db refl
      (Preserves-after (λ d. d.sync_runs ≡ db.sync_runs) (check_connection command.connection_id) _
        db (Safe-check_connection (λ runs. runs ≡ db.sync_runs) p m command db refl)
        λ other e kept.
          let same : other ≡ connection = cc in
          Safe-after_connection (λ runs. runs ≡ db.sync_runs) p m command other
            (λ event decision i.
              rw
                (inactive_asks_nothing m command.connection_id event i other decision
                  (rw same inactive))
                (λ d k. k))
            (check_connection command.connection_id db).1 kept)
