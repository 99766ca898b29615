-- ===== src/Services/Safety/Replay.antt =====
-- A delivery that was recorded before, and that is not to be retried.
use tci.Prelude.{
  ◌≡◌, refl, Bool, true, false, Option, none, some, List, String, not, ◌||◌, if◌then◌else◌, ◌==◌,
  find?,
}
use tci.Models.Enums.Types.{ProcessingDecision, SyncTriggerType, RepositoryConnectionStatus}
use tci.Models.Enums.Equality.{connection_status_eq, processing_decision_eq}
use tci.Models.Rows.{
  Uuid, RepositorySyncRun, RepositoryConnection, RepositoryEvent, RepositoryEventCursor,
}
use tci.Session.{Database, ok, pure, lift, ◌>>=◌}
use tci.Session.Rules.{Preserves-after}
use tci.Persistence.Cursors.{get_cursor}
use tci.Persistence.Events.{get_by_delivery_id, is_delivery}
use tci.Webhooks.TokenVerifier.{GitLabTokenVerificationOutcome}
use tci.Webhooks.Decision.{decide_provider_event_processing, record_only}
use tci.Webhooks.GitlabEvents.{ParsedProviderEvent}
use tci.Services.Platform.{Platform, Moment}
use tci.Services.Delivery.{is_retryable_delivery}
use tci.Services.GitlabEvent.{ProcessGitLabEventCommand}
use tci.Services.GitlabEvent.Rules.{resolve_current_head_sha, is_unsupported_fork}
use tci.Services.GitlabEvent.Recording.{record_delivery}
use tci.Services.GitlabEvent.Queueing.{request_sync, no_sync, for_trigger}
use tci.Services.GitlabEvent.Process.{
  decide, find_delivery, with_existing, with_head, carry_out, continue_with, process_matching,
}
use tci.Services.Safety.{Safe}
use tci.Services.Safety.Tables.{Safe-bind}
use tci.Services.Safety.Retry.{Safe-is_retryable}
use tci.Services.Safety.Handler.{Safe-record_delivery, Safe-continue_with}

module _ (p : Platform) (m : Moment) (command : ProcessGitLabEventCommand)
    (outcome : GitLabTokenVerificationOutcome) (event : ParsedProviderEvent)
    (connection : RepositoryConnection) where
  replay_asks_nothing :
      (cursor : Option RepositoryEventCursor) (resolved : Option String)
      (existing : RepositoryEvent) (i : Uuid)
      → request_sync m command.connection_id event i
          (decide p m command connection event cursor resolved (some existing) false)
        ≡ pure no_sync
  unfolding request_sync decide_provider_event_processing
  replay_asks_nothing cursor resolved existing i = go event.trigger_type (
      not (connection.status == RepositoryConnectionStatus.active)
      || is_unsupported_fork connection event)
    where
      go :
          (trigger : Option SyncTriggerType) (b : Bool)
          → for_trigger m command.connection_id event i
              (if b then record_only else record {
                processing_decision = ProcessingDecision.duplicate_delivery;
                should_queue_sync = false;
              })
              trigger
            ≡ pure no_sync
      go none b = refl
      go (some trigger) true = refl
      go (some trigger) false = refl

  Safe-replay :
      (J : List RepositorySyncRun → Type 0) (cursor : Option RepositoryEventCursor)
      (resolved : Option String) (existing : RepositoryEvent)
      → Safe J (
          carry_out p m command outcome event
            (decide p m command connection event cursor resolved (some existing) false)
            false
            (some existing))
  Safe-replay J cursor resolved existing =
      Safe-bind J
        (record_delivery p m command outcome event false
          (decide p m command connection event cursor resolved (some existing) false)
          (some existing))
        (continue_with p m command outcome event
          (decide p m command connection event cursor resolved (some existing) false))
        (Safe-record_delivery J p m command outcome event false
          (decide p m command connection event cursor resolved (some existing) false)
          (some existing))
        λ recorded.
          Safe-continue_with J p m command outcome event
            (decide p m command connection event cursor resolved (some existing) false) recorded
            (λ i. rw (replay_asks_nothing cursor resolved existing i) (λ d h. h))

  -- A verified and matching delivery that the table holds already, and that is not to be retried,
  -- changes no sync run and adds none.
  pub replay_changes_no_run :
      (db : Database) (existing : RepositoryEvent)
      → find?
          (is_delivery command.connection_id command.provider_delivery_id
            command.provider_event_idempotency_source)
          db.events
        ≡ some existing
      → (is_retryable_delivery m.clock command.connection_id (some existing) db).0 ≡ ok false
      → (process_matching p m command connection outcome event db).1.sync_runs ≡ db.sync_runs
  unfolding process_matching get_cursor get_by_delivery_id
  replay_changes_no_run db existing there once =
      Preserves-after I (get_cursor command.connection_id event.target_key)
        (λ cursor.
          lift (resolve_current_head_sha p connection event)
          >>= with_head p m command connection outcome event cursor)
        db refl
        λ cursor _ _.
          Preserves-after I (lift (resolve_current_head_sha p connection event))
            (with_head p m command connection outcome event cursor) db refl
            λ resolved _ _.
              Preserves-after I (find_delivery p m command)
                (with_existing p m command connection outcome event cursor resolved) db refl
                λ found e _.
                  let same : found ≡ some existing = cc in rw same (known_delivery cursor resolved)
    where
      I : Database → Type 0
      I d = d.sync_runs ≡ db.sync_runs

      known_delivery :
          (cursor : Option RepositoryEventCursor) (resolved : Option String)
          → I
              (with_existing p m command connection outcome event cursor resolved
                (some existing)
                db).1
      known_delivery cursor resolved =
          Preserves-after I (is_retryable_delivery m.clock command.connection_id (some existing)) _
            db
            (Safe-is_retryable (λ runs. runs ≡ db.sync_runs) m.clock command.connection_id
              (some existing) db refl)
            λ retryable e k.
              let no : retryable ≡ false = cc in
              rw no (
                Safe-replay (λ runs. runs ≡ db.sync_runs) cursor resolved existing
                  (is_retryable_delivery m.clock command.connection_id (some existing) db).1 k)
