-- ===== src/Services/GithubEvent/Process/Laws.antt =====
-- What a GitHub delivery may do to the database, what it answers, and whose secret it was signed by.
use tci.Prelude.{◌≡◌, refl, Bool, true, false, Option, none, some, String}
use tci.Session.{Session, Database, ok, lift, ◌>>=◌, runtime_error, problem, ProblemCode}
use tci.Session.Rules.{
  Answers, Answers-pure, Answers-bind, Answers-if, Answers-then, Answers-raise, Answers-scope,
}
use tci.Models.Enums.Types.{WebhookHealthState, WebhookSecretRevisionStatus}
use tci.Models.Rows.{Uuid, RepositoryEvent, RepositoryConnection}
use tci.Persistence.Connections.{record_processed_event}
use tci.Persistence.Cursors.{get_cursor}
use tci.Webhooks.Decision.{ProviderEventDecisionOutcome}
use tci.Webhooks.GithubEvents.{ParsedGitHubEvent}
use tci.Services.Platform.{Moment}
use tci.Services.Delivery.{is_retryable_delivery}
use tci.Services.GitlabEvent.Rules.{resolve_current_head_sha}
use tci.Services.GitlabEvent.Process.Laws.{IsDispatchable, RequestOk, request_sync-RequestOk}
use tci.Services.GithubEvent.{GitHubPlatform, ProcessGitHubEventCommand, ProcessGitHubEventResult}
use tci.Services.GithubEvent.Verification.{
  SecretVerificationOutcome, secret_is_verified, verify_signature,
}
use tci.Services.GithubEvent.Rejection.{
  check_github_connection, find_github_delivery, record_github_rejected_event, github_problem_for,
}
use tci.Services.GithubEvent.Recording.{as_provider_event, record_github_delivery}
use tci.Services.GithubEvent.Process.{
  decide_github, github_answer, github_request_sync, finish_github_delivery, continue_github,
  carry_out_github, with_github_delivery, with_github_head, process_github_matching, parse_github,
  process_github_verified, refuse_github, process_github_in_session, process_github_event,
  github_repository_mismatch,
}

abbrev AnswerOk : ProcessGitHubEventResult → Type 0
AnswerOk r = IsDispatchable r.sync_run_id r.should_enqueue_sync r.dispatch_event_id

module _ (g : GitHubPlatform) (m : Moment) (command : ProcessGitHubEventCommand) where
  finish_github-AnswerOk :
      (event : ParsedGitHubEvent) (decision : ProviderEventDecisionOutcome) (event_id : Uuid)
      → Answers AnswerOk (finish_github_delivery g m command event decision event_id)
  finish_github-AnswerOk event decision event_id =
      Answers-then RequestOk AnswerOk (github_request_sync g m command event event_id decision) _
        (request_sync-RequestOk m command.connection_id (as_provider_event event) event_id decision)
        λ request fine.
          Answers-bind AnswerOk
            (record_processed_event command.connection_id event_id m.now WebhookHealthState.healthy)
            _ λ _. Answers-pure AnswerOk (github_answer g m command event_id request) fine

  continue_github-AnswerOk :
      (event : ParsedGitHubEvent) (decision : ProviderEventDecisionOutcome)
      (recorded : RepositoryEvent × Bool)
      → Answers AnswerOk (continue_github g m command event decision recorded)
  continue_github-AnswerOk event decision (recorded, false) =
      Answers-pure AnswerOk
        record {
          event_id = recorded.id;
          provider_delivery_id = command.provider_delivery_id;
          sync_run_id = recorded.sync_run_id;
          should_enqueue_sync = false;
          dispatch_event_id = none;
        }
        (refl, refl)
  continue_github-AnswerOk event decision (recorded, true) =
      finish_github-AnswerOk event decision recorded.id

  carry_out_github-AnswerOk :
      (outcome : SecretVerificationOutcome) (event : ParsedGitHubEvent)
      (decision : ProviderEventDecisionOutcome) (retryable : Bool)
      (existing : Option RepositoryEvent) (status : Option WebhookSecretRevisionStatus)
      → Answers AnswerOk
          (carry_out_github g m command outcome event decision retryable existing status)
  carry_out_github-AnswerOk outcome event decision retryable existing none =
      Answers-raise AnswerOk runtime_error
  carry_out_github-AnswerOk outcome event decision retryable existing (some status) =
      Answers-bind AnswerOk
        (record_github_delivery g.platform m command outcome status event retryable decision
          existing)
        (continue_github g m command event decision) (continue_github-AnswerOk event decision)

  process_github_matching-AnswerOk :
      (connection : RepositoryConnection) (outcome : SecretVerificationOutcome)
      (event : ParsedGitHubEvent)
      → Answers AnswerOk (process_github_matching g m command connection outcome event)
  unfolding process_github_matching
  process_github_matching-AnswerOk connection outcome event =
      Answers-bind AnswerOk (get_cursor command.connection_id event.target_key)
        (λ cursor. head >>= with_github_head g m command connection outcome event cursor)
        λ cursor.
          Answers-bind AnswerOk head (with_github_head g m command connection outcome event cursor)
            λ resolved.
              Answers-bind AnswerOk (find_github_delivery g.platform m command)
                (with_github_delivery g m command connection outcome event cursor resolved)
                λ existing.
                  Answers-bind AnswerOk
                    (is_retryable_delivery m.clock command.connection_id existing)
                    (λ retryable.
                      carry_out_github g m command outcome event
                        (decide_github g m command connection event cursor resolved existing
                          retryable)
                        retryable existing outcome.verified_secret_revision_status)
                    λ retryable.
                      carry_out_github-AnswerOk outcome event
                        (decide_github g m command connection event cursor resolved existing
                          retryable)
                        retryable existing outcome.verified_secret_revision_status
    where
      head : Session (Option String)
      head = lift (resolve_current_head_sha g.platform connection (as_provider_event event))

  process_github_verified-AnswerOk :
      (connection : RepositoryConnection) (outcome : SecretVerificationOutcome)
      → Answers AnswerOk (process_github_verified g m command connection outcome)
  process_github_verified-AnswerOk connection outcome =
      Answers-bind AnswerOk (parse_github g m command) _ λ event.
        Answers-if AnswerOk (github_repository_mismatch connection event) _ _
          (Answers-raise AnswerOk (problem ProblemCode.invalid_input))
          (process_github_matching-AnswerOk connection outcome event)

  refuse_github-AnswerOk :
      (outcome : SecretVerificationOutcome) → Answers AnswerOk (refuse_github g m command outcome)
  refuse_github-AnswerOk outcome =
      Answers-bind AnswerOk
        (record_github_rejected_event g.platform m command outcome.signature_status) _
        λ _. Answers-raise AnswerOk (github_problem_for outcome.signature_status)

  -- Every GitHub delivery that is answered asks the queue for a sync exactly when it names the event
  -- to dispatch, and then names the sync run as well.
  pub github_answer-IsDispatchable :
      (db : Database) (r : ProcessGitHubEventResult)
      → (process_github_event g m command db).0 ≡ ok r
      → IsDispatchable r.sync_run_id r.should_enqueue_sync r.dispatch_event_id
  unfolding process_github_event process_github_in_session
  github_answer-IsDispatchable = Answers-scope AnswerOk (process_github_in_session g m command) (
      Answers-bind AnswerOk (check_github_connection command.connection_id) _ λ connection.
        Answers-bind AnswerOk (verify_signature g m.now command) _ λ outcome.
          Answers-if AnswerOk (secret_is_verified outcome) _ _
            (process_github_verified-AnswerOk connection outcome) (refuse_github-AnswerOk outcome))
