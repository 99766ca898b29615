-- ===== src/Services/Safety/Handler.antt =====
-- The handler of domain/services/process_gitlab_event.py, but for the step that asks for a sync run,
-- with respect to the sync runs.
use tci.Prelude.{Bool, true, false, Option, none, some, List, [], ◌∷◌, String, not, ◌&&◌}
use tci.Models.Enums.Equality.{signature_status_eq, processing_status_eq, processing_decision_eq}
use tci.Models.Rows.{
  Uuid, RepositorySyncRun, RepositoryEvent, RepositoryEventCursor, RepositoryConnection,
}
use tci.Session.{pure, lift, ◌>>=◌, ◌>>◌}
use tci.Persistence.Events.{get_by_delivery_id, update_processing}
use tci.Persistence.Cursors.{get_cursor}
use tci.Webhooks.TokenVerifier.{GitLabTokenVerificationOutcome}
use tci.Webhooks.Decision.{ProviderEventDecisionOutcome}
use tci.Webhooks.GitlabEvents.{ParsedProviderEvent}
use tci.Services.Platform.{Platform, Moment}
use tci.Services.Delivery.{create_event_or_get_concurrent_delivery, is_retryable_delivery}
use tci.Services.GitlabEvent.{ProcessGitLabEventCommand}
use tci.Services.GitlabEvent.Recording.{
  record_delivery, record_commit_events, record_payload_rejected_event, create_unless, commit_draft,
  payload_rejected_draft, accepted_draft, refresh, accepted_again,
}
use tci.Services.GitlabEvent.Rules.{commit_delivery_id, resolve_current_head_sha, status_of}
use tci.Services.GitlabEvent.Queueing.{request_sync}
use tci.Services.GitlabEvent.Process.{
  mark_processed, finish_delivery, continue_with, carry_out, decide, find_delivery, with_existing,
  with_head, process_matching, answer,
}
use tci.Services.Safety.{Safe}
use tci.Services.Safety.Tables.{
  Safe-bind, Safe-get_by_delivery_id, Safe-set_event, Safe-update_processing, Safe-get_cursor,
  Safe-create_event_or_get,
}
use tci.Services.Safety.Retry.{Safe-is_retryable}
use tci.Services.Safety.Rejection.{Safe-find_delivery, Safe-mark_processed}

module _ (J : List RepositorySyncRun → Type 0) (p : Platform) (m : Moment)
    (command : ProcessGitLabEventCommand) where
  module _ (outcome : GitLabTokenVerificationOutcome) (event : ParsedProviderEvent) where
    Safe-refresh :
        (retryable : Bool) (i : Uuid) → Safe J (refresh p m command outcome event retryable i)
    Safe-refresh true i = Safe-set_event J i (accepted_again p m command outcome event)
    Safe-refresh false i = λ db h. h

    pub Safe-record_delivery :
        (retryable : Bool) (decision : ProviderEventDecisionOutcome)
        (existing : Option RepositoryEvent)
        → Safe J (record_delivery p m command outcome event retryable decision existing)
    unfolding record_delivery
    Safe-record_delivery retryable decision none =
        Safe-create_event_or_get J (accepted_draft p m command outcome event decision)
    Safe-record_delivery retryable decision (some e) =
        Safe-bind J (refresh p m command outcome event retryable e.id)
          (λ _.
            update_processing e.id decision.processing_decision (status_of decision) m.now none none
              (retryable && not decision.should_queue_sync)
            >>= λ u. pure (u, true))
          (Safe-refresh retryable e.id)
          λ _.
            Safe-bind J
              (update_processing e.id decision.processing_decision (status_of decision) m.now none
                none (retryable && not decision.should_queue_sync))
              (λ u. pure (u, true))
              (Safe-update_processing J e.id decision.processing_decision (status_of decision) m.now
                none none (retryable && not decision.should_queue_sync))
              (λ u db h. h)

    Safe-create_unless :
        (draft : RepositoryEvent) (existing : Option RepositoryEvent)
        → Safe J (create_unless p m command outcome event draft existing)
    Safe-create_unless draft (some e) = λ db h. h
    Safe-create_unless draft none =
        Safe-bind J (create_event_or_get_concurrent_delivery draft) (λ _. pure tt)
          (Safe-create_event_or_get J draft) (λ _ db h. h)

    Safe-record_commit_events :
        (shas : List String) → Safe J (record_commit_events p m command outcome event shas)
    unfolding record_commit_events
    Safe-record_commit_events [] = λ db h. h
    Safe-record_commit_events (sha ∷ shas) =
        Safe-bind J
          (get_by_delivery_id command.connection_id
            (commit_delivery_id p command.provider_delivery_id sha)
            command.provider_event_idempotency_source)
          (λ existing.
            create_unless p m command outcome event (commit_draft p m command outcome event sha)
              existing
            >> record_commit_events p m command outcome event shas)
          (Safe-get_by_delivery_id J command.connection_id
            (commit_delivery_id p command.provider_delivery_id sha)
            command.provider_event_idempotency_source)
          λ existing.
            Safe-bind J
              (create_unless p m command outcome event (commit_draft p m command outcome event sha)
                existing)
              (λ _. record_commit_events p m command outcome event shas)
              (Safe-create_unless (commit_draft p m command outcome event sha) existing)
              (λ _. Safe-record_commit_events shas)

    pub Safe-record_payload_rejected_event :
        Safe J (record_payload_rejected_event p m command outcome event)
    unfolding record_payload_rejected_event
    Safe-record_payload_rejected_event =
        Safe-bind J (find_delivery p m command)
          (create_unless p m command outcome event
            (payload_rejected_draft p m command outcome event))
          (Safe-find_delivery J p m command)
          (Safe-create_unless (payload_rejected_draft p m command outcome event))

    Safe-finish_delivery :
        (decision : ProviderEventDecisionOutcome) (i : Uuid)
        → Safe J (request_sync m command.connection_id event i decision)
        → Safe J (finish_delivery p m command outcome event decision i)
    Safe-finish_delivery decision i asks =
        Safe-bind J (request_sync m command.connection_id event i decision)
          (λ request.
            record_commit_events p m command outcome event event.commit_shas
            >> (mark_processed p m command decision i >> pure (answer p m command i request)))
          asks
          λ request.
            Safe-bind J (record_commit_events p m command outcome event event.commit_shas)
              (λ _. mark_processed p m command decision i >> pure (answer p m command i request))
              (Safe-record_commit_events event.commit_shas)
              λ _.
                Safe-bind J (mark_processed p m command decision i)
                  (λ _. pure (answer p m command i request))
                  (Safe-mark_processed J p m command decision i) (λ _ db h. h)

    pub Safe-continue_with :
        (decision : ProviderEventDecisionOutcome) (recorded : RepositoryEvent × Bool)
        → ((i : Uuid) → Safe J (request_sync m command.connection_id event i decision))
        → Safe J (continue_with p m command outcome event decision recorded)
    Safe-continue_with decision (recorded, false) asks = λ db h. h
    Safe-continue_with decision (recorded, true) asks =
        Safe-finish_delivery decision recorded.id (asks recorded.id)

    -- The steps of a delivery, but for the one that asks for a sync run, whose safety is assumed for
    -- the decisions of this connection.
    pub Safe-process_matching :
        (connection : RepositoryConnection)
        → ((cursor : Option RepositoryEventCursor) (resolved : Option String)
              (existing : Option RepositoryEvent) (retryable : Bool) (i : Uuid)
            → Safe J (
                request_sync m command.connection_id event i
                  (decide p m command connection event cursor resolved existing retryable)))
        → Safe J (process_matching p m command connection outcome event)
    unfolding process_matching is_retryable_delivery
    Safe-process_matching connection asks =
        Safe-bind J (get_cursor command.connection_id event.target_key)
          (λ cursor.
            lift (resolve_current_head_sha p connection event)
            >>= with_head p m command connection outcome event cursor)
          (Safe-get_cursor J command.connection_id event.target_key)
          λ cursor.
            Safe-bind J (lift (resolve_current_head_sha p connection event))
              (with_head p m command connection outcome event cursor) (λ db h. h)
              λ resolved.
                Safe-bind J (find_delivery p m command)
                  (with_existing p m command connection outcome event cursor resolved)
                  (Safe-find_delivery J p m command)
                  λ existing.
                    Safe-bind J (is_retryable_delivery m.clock command.connection_id existing)
                      (λ retryable.
                        carry_out p m command outcome event
                          (decide p m command connection event cursor resolved existing retryable)
                          retryable existing)
                      (Safe-is_retryable J m.clock command.connection_id existing)
                      λ retryable.
                        Safe-bind J
                          (record_delivery p m command outcome event retryable
                            (decide p m command connection event cursor resolved existing retryable)
                            existing)
                          (continue_with p m command outcome event (
                            decide p m command connection event cursor resolved existing retryable))
                          (Safe-record_delivery retryable
                            (decide p m command connection event cursor resolved existing retryable)
                            existing)
                          λ recorded.
                            Safe-continue_with
                              (decide p m command connection event cursor resolved existing
                                retryable)
                              recorded (asks cursor resolved existing retryable)
