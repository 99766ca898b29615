-- ===== src/Services/GitlabEvent/Process/Laws.antt =====
-- What a delivery may do to the database and what it answers.
use tci.Prelude.{
  ◌≡◌, refl, Bool, true, false, not, ◌||◌, Option, none, some, String, if◌then◌else◌, is_some,
}
use tci.Session.{Session, Database, ok, pure, lift, ◌>>=◌, runtime_error, problem, ProblemCode}
use tci.Models.Enums.Types.{SyncTriggerType, RefType}
use tci.Models.Rows.{
  RepositoryEventCursor, Uuid, RepositorySyncRun, RepositoryEvent, RepositoryConnection,
}
use tci.Persistence.SyncRuns.{RepositorySyncRunDraft}
use tci.Webhooks.TokenVerifier.{GitLabTokenVerificationOutcome, is_verified}
use tci.Webhooks.Decision.{ProviderEventDecisionOutcome}
use tci.Webhooks.GitlabEvents.{ParsedProviderEvent}
use tci.Services.Delivery.{is_retryable_delivery, pending_sync_dispatch_event_id}
use tci.Services.GitlabEvent.Queueing.{
  SyncRequest, no_sync, join_active, adopt, join_as_duplicate, note_created, running_of, active_of,
  run_draft, create_run, adopt_existing, adopt_created, with_active, for_ref, for_trigger,
  request_sync,
}
use tci.Session.Rules.{
  Answers, Answers-pure, Answers-bind, Answers-if, Answers-then, Answers-raise, Answers-scope,
}
use tci.Persistence.Cursors.{get_cursor}
use tci.Services.GitlabEvent.Rejection.{
  check_connection, verify_token, record_rejected_event, problem_for_signature_status,
}
use tci.Services.GitlabEvent.Rules.{resolve_current_head_sha, repository_mismatch}
use tci.Services.GitlabEvent.Recording.{
  record_commit_events, record_delivery, record_payload_rejected_event,
}
use tci.Services.Platform.{Platform, Moment}
use tci.Services.GitlabEvent.{ProcessGitLabEventCommand, ProcessGitLabEventResult}
use tci.Services.GitlabEvent.Process.{
  process_gitlab_event, process_in_session, continue_with, with_head, with_existing, carry_out,
  find_delivery, parse, decide, finish_delivery, mark_processed, answer, process_matching,
  process_verified, refuse,
}

-- What a caller may rely on: a run is put on the queue exactly with the event that it is dispatched
-- for, and then the answer names the run.
abbrev pub IsDispatchable : Option Uuid → Bool → Option Uuid → Type 0
IsDispatchable sync_run_id should_enqueue dispatch_event_id =
    (should_enqueue ≡ is_some dispatch_event_id)
    × ((not should_enqueue || is_some sync_run_id) ≡ true)

abbrev pub RequestOk : SyncRequest → Type 0
RequestOk r = IsDispatchable r.sync_run_id r.should_enqueue_sync r.dispatch_event_id

abbrev AnswerOk : ProcessGitLabEventResult → Type 0
AnswerOk r = IsDispatchable r.sync_run_id r.should_enqueue_sync r.dispatch_event_id

module _ (m : Moment) (connection_id : Uuid) (event : ParsedProviderEvent) (event_id : Uuid) where
  abbrev pub OkRequest : Session SyncRequest → Type 0
  OkRequest = Answers RequestOk

  join_active-RequestOk :
      (run : RepositorySyncRun) → OkRequest (join_active m connection_id event event_id run)
  join_active-RequestOk run =
      Answers-bind RequestOk (pending_sync_dispatch_event_id m.clock run) _ λ dispatch.
        Answers-bind RequestOk _ _ λ _. Answers-pure RequestOk _ (refl, named (is_some dispatch))
    where
      named : (b : Bool) → (not b || true) ≡ true
      named true = refl
      named false = refl

  adopt_existing-RequestOk :
      (run : RepositorySyncRun) → OkRequest (adopt_existing m connection_id event event_id run)
  adopt_existing-RequestOk run =
      Answers-bind RequestOk (join_as_duplicate m connection_id event event_id run) _ λ _.
        Answers-pure RequestOk
          record {
            sync_run_id = some run.id;
            should_enqueue_sync = false;
            dispatch_event_id = none;
          }
          (refl, refl)

  adopt_created-RequestOk :
      (is_running : Bool) (run : RepositorySyncRun)
      → OkRequest (adopt_created m connection_id event event_id is_running run)
  adopt_created-RequestOk is_running run =
      Answers-bind RequestOk (note_created m connection_id event event_id is_running run) _
        λ _. Answers-pure RequestOk _ (agree is_running, named is_running)
    where
      named : (b : Bool) → (not (not b) || true) ≡ true
      named true = refl
      named false = refl

      agree : (b : Bool) → not b ≡ is_some (if b then none else some event_id)
      agree true = refl
      agree false = refl

  adopt-RequestOk :
      (is_running : Bool) (created : RepositorySyncRun × Bool)
      → OkRequest (adopt m connection_id event event_id is_running created)
  adopt-RequestOk is_running (run, false) = adopt_existing-RequestOk run
  adopt-RequestOk is_running (run, true) = adopt_created-RequestOk is_running run

  no_sync-RequestOk : OkRequest (pure no_sync)
  no_sync-RequestOk = Answers-pure RequestOk no_sync (refl, refl)

  with_active-RequestOk :
      (should_queue : Bool) (draft : RepositorySyncRunDraft)
      (running active : Option RepositorySyncRun)
      → OkRequest (with_active m connection_id event event_id should_queue draft running active)
  with_active-RequestOk should_queue draft running (some active) = join_active-RequestOk active
  with_active-RequestOk false draft running none = no_sync-RequestOk
  with_active-RequestOk true draft running none =
      Answers-bind RequestOk (create_run m connection_id event event_id running draft) _
        λ created. adopt-RequestOk (is_some running) created

  for_ref-RequestOk :
      (should_queue : Bool) (trigger_type : SyncTriggerType) (ref_type : Option RefType)
      → OkRequest (for_ref m connection_id event event_id should_queue trigger_type ref_type)
  for_ref-RequestOk should_queue trigger_type none = Answers-raise RequestOk runtime_error
  for_ref-RequestOk should_queue trigger_type (some ref_type) =
      Answers-bind RequestOk (running_of m connection_id event event_id ref_type) _ λ running.
        Answers-bind RequestOk (active_of m connection_id event event_id ref_type) _ λ active.
          with_active-RequestOk should_queue
            (run_draft m connection_id event event_id trigger_type ref_type) running active

  pub request_sync-RequestOk :
      (decision : ProviderEventDecisionOutcome)
      → OkRequest (request_sync m connection_id event event_id decision)
  unfolding request_sync
  request_sync-RequestOk decision = go event.trigger_type
    where
      go :
          (trigger_type : Option SyncTriggerType)
          → OkRequest (for_trigger m connection_id event event_id decision trigger_type)
      go none = no_sync-RequestOk
      go (some trigger_type) =
          Answers-if RequestOk _ _ _
            (for_ref-RequestOk decision.should_queue_sync trigger_type event.requested_ref_type)
            no_sync-RequestOk

module _ (p : Platform) (m : Moment) (command : ProcessGitLabEventCommand) where
  finish_delivery-AnswerOk :
      (outcome : GitLabTokenVerificationOutcome) (event : ParsedProviderEvent)
      (decision : ProviderEventDecisionOutcome) (event_id : Uuid)
      → Answers AnswerOk (finish_delivery p m command outcome event decision event_id)
  finish_delivery-AnswerOk outcome event decision event_id =
      Answers-then RequestOk AnswerOk (request_sync m command.connection_id event event_id decision)
        _ (request_sync-RequestOk m command.connection_id event event_id decision)
        λ request fine.
          Answers-bind AnswerOk (record_commit_events p m command outcome event event.commit_shas) _
            λ _.
              Answers-bind AnswerOk (mark_processed p m command decision event_id) _
                λ _. Answers-pure AnswerOk (answer p m command event_id request) fine

  continue_with-AnswerOk :
      (outcome : GitLabTokenVerificationOutcome) (event : ParsedProviderEvent)
      (decision : ProviderEventDecisionOutcome) (recorded : RepositoryEvent × Bool)
      → Answers AnswerOk (continue_with p m command outcome event decision recorded)
  continue_with-AnswerOk outcome event decision (recorded, false) =
      Answers-pure AnswerOk
        record {
          event_id = recorded.id;
          provider_delivery_id = command.provider_delivery_id;
          sync_run_id = recorded.sync_run_id;
          should_enqueue_sync = false;
          dispatch_event_id = none;
        }
        (refl, refl)
  continue_with-AnswerOk outcome event decision (recorded, true) =
      finish_delivery-AnswerOk outcome event decision recorded.id

  decided-AnswerOk :
      (outcome : GitLabTokenVerificationOutcome) (event : ParsedProviderEvent)
      (decision : ProviderEventDecisionOutcome) (retryable : Bool)
      (existing : Option RepositoryEvent)
      → Answers AnswerOk (carry_out p m command outcome event decision retryable existing)
  decided-AnswerOk outcome event decision retryable existing =
      Answers-bind AnswerOk (record_delivery p m command outcome event retryable decision existing)
        (continue_with p m command outcome event decision)
        (continue_with-AnswerOk outcome event decision)

  with_existing-AnswerOk :
      (connection : RepositoryConnection) (outcome : GitLabTokenVerificationOutcome)
      (event : ParsedProviderEvent) (cursor : Option RepositoryEventCursor)
      (resolved : Option String) (existing : Option RepositoryEvent)
      → Answers AnswerOk
          (with_existing p m command connection outcome event cursor resolved existing)
  with_existing-AnswerOk connection outcome event cursor resolved existing =
      Answers-bind AnswerOk (is_retryable_delivery m.clock command.connection_id existing)
        (λ retryable.
          carry_out p m command outcome event
            (decide p m command connection event cursor resolved existing retryable) retryable
            existing)
        λ retryable.
          decided-AnswerOk outcome event
            (decide p m command connection event cursor resolved existing retryable) retryable
            existing

  process_matching-AnswerOk :
      (connection : RepositoryConnection) (outcome : GitLabTokenVerificationOutcome)
      (event : ParsedProviderEvent)
      → Answers AnswerOk (process_matching p m command connection outcome event)
  unfolding process_matching
  process_matching-AnswerOk connection outcome event =
      Answers-bind AnswerOk (get_cursor command.connection_id event.target_key)
        (λ cursor.
          lift (resolve_current_head_sha p connection event)
          >>= with_head p m command connection outcome event cursor)
        λ cursor.
          Answers-bind AnswerOk (lift (resolve_current_head_sha p connection event))
            (with_head p m command connection outcome event cursor)
            λ resolved.
              Answers-bind AnswerOk (find_delivery p m command)
                (with_existing p m command connection outcome event cursor resolved)
                (with_existing-AnswerOk connection outcome event cursor resolved)

  refuse-AnswerOk :
      (outcome : GitLabTokenVerificationOutcome) → Answers AnswerOk (refuse p m command outcome)
  refuse-AnswerOk outcome =
      Answers-bind AnswerOk (record_rejected_event p m command outcome.signature_status) _
        λ _. Answers-raise AnswerOk (problem_for_signature_status outcome.signature_status)

  process_verified-AnswerOk :
      (connection : RepositoryConnection) (outcome : GitLabTokenVerificationOutcome)
      → Answers AnswerOk (process_verified p m command connection outcome)
  process_verified-AnswerOk connection outcome =
      Answers-bind AnswerOk (parse p m command) _ λ event.
        Answers-if AnswerOk (not (repository_mismatch p connection event)) _ _
          (process_matching-AnswerOk connection outcome event)
          (Answers-bind AnswerOk (record_payload_rejected_event p m command outcome event) _
            λ _. Answers-raise AnswerOk (problem ProblemCode.invalid_input))

  -- Every delivery that is answered asks the queue for a sync exactly when it names the event to
  -- dispatch, and then names the sync run as well.
  pub answer-IsDispatchable :
      (db : Database) (r : ProcessGitLabEventResult)
      → (process_gitlab_event p m command db).0 ≡ ok r
      → IsDispatchable r.sync_run_id r.should_enqueue_sync r.dispatch_event_id
  unfolding process_gitlab_event process_in_session
  answer-IsDispatchable = Answers-scope AnswerOk (process_in_session p m command) (
      Answers-bind AnswerOk (check_connection command.connection_id) _ λ connection.
        Answers-bind AnswerOk (verify_token p m.now command.connection_id command.token_header) _
          λ outcome.
            Answers-if AnswerOk (is_verified outcome) _ _
              (process_verified-AnswerOk connection outcome) (refuse-AnswerOk outcome))
