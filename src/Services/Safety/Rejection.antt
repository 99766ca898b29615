-- ===== src/Services/Safety/Rejection.antt =====
-- The steps that read the delivery, refuse it, or mark the connection.
use tci.Prelude.{Bool, true, false, Option, none, some, List, not, if◌then◌else◌, ◌==◌}
use tci.Models.Enums.Types.{WebhookHealthState, SignatureStatus}
use tci.Models.Enums.Equality.{signature_status_eq, processing_status_eq, processing_decision_eq}
use tci.Models.Rows.{Uuid, RepositorySyncRun, RepositoryEvent}
use tci.Session.{pure, ◌>>=◌, ◌>>◌}
use tci.Session.Rules.{Preserves-if}
use tci.Persistence.Events.{set_event}
use tci.Persistence.Connections.{
  record_webhook_rejection, record_processed_event,
  record_processed_event_preserving_webhook_health,
}
use tci.Webhooks.Decision.{ProviderEventDecisionOutcome}
use tci.Services.Platform.{Platform, Moment}
use tci.Services.Delivery.{create_event_or_get_concurrent_delivery}
use tci.Services.GitlabEvent.{ProcessGitLabEventCommand}
use tci.Services.GitlabEvent.Rejection.{
  record_rejection, record_rejected_event, rejected_draft, reject_again, from_header, health_of,
  rejection_of,
}
use tci.Services.GitlabEvent.Rules.{should_mark_webhook_healthy}
use tci.Services.GitlabEvent.Process.{mark_processed, find_delivery}
use tci.Services.Safety.{Safe}
use tci.Services.Safety.Tables.{
  Safe-bind, Safe-get_by_delivery_id, Safe-set_event, Safe-set_connection, Safe-create_event_or_get,
}

module _ (J : List RepositorySyncRun → Type 0) (p : Platform) (m : Moment)
    (command : ProcessGitLabEventCommand) where
  pub Safe-find_delivery : Safe J (find_delivery p m command)
  Safe-find_delivery =
      Safe-get_by_delivery_id J command.connection_id command.provider_delivery_id
        command.provider_event_idempotency_source

  Safe-record_rejection :
      (status : SignatureStatus) (existing : Option RepositoryEvent)
      → Safe J (record_rejection p m command status existing)
  Safe-record_rejection status none =
      Safe-bind J (create_event_or_get_concurrent_delivery (rejected_draft p m command status)) _
        (Safe-create_event_or_get J (rejected_draft p m command status)) (λ r db h. h)
  Safe-record_rejection status (some event) =
      Preserves-if (λ db. J db.sync_runs) (event.signature_status == SignatureStatus.verified)
        (pure false)
        (set_event event.id (reject_again status m.now)
          >> pure (from_header command.provider_event_idempotency_source))
        (λ db h. h)
        (Safe-bind J (set_event event.id (reject_again status m.now))
          (λ _. pure (from_header command.provider_event_idempotency_source))
          (Safe-set_event J event.id (reject_again status m.now)) (λ _ db h. h))

  Safe-update_health :
      (status : SignatureStatus) (update : Bool)
      → Safe J (
          if not update
          then pure tt
          else (record_webhook_rejection command.connection_id
                (health_of status)
                (rejection_of status)
                m.now
              >> pure tt))
  unfolding record_webhook_rejection
  Safe-update_health status false = λ db h. h
  Safe-update_health status true =
      Safe-bind J
        (record_webhook_rejection command.connection_id (health_of status) (rejection_of status)
          m.now)
        (λ _. pure tt) (Safe-set_connection J command.connection_id _) (λ _ db h. h)

  pub Safe-record_rejected_event :
      (status : SignatureStatus) → Safe J (record_rejected_event p m command status)
  unfolding record_rejected_event
  Safe-record_rejected_event status =
      Safe-bind J (find_delivery p m command)
        (λ existing. record_rejection p m command status existing >>= λ update.
          if not update
          then pure tt
          else (record_webhook_rejection command.connection_id (health_of status)
                (rejection_of status) m.now
              >> pure tt))
        Safe-find_delivery
        λ existing.
          Safe-bind J (record_rejection p m command status existing) _
            (Safe-record_rejection status existing) (Safe-update_health status)

  pub Safe-mark_processed :
      (decision : ProviderEventDecisionOutcome) (i : Uuid)
      → Safe J (mark_processed p m command decision i)
  unfolding record_processed_event record_processed_event_preserving_webhook_health
  Safe-mark_processed decision i =
      Safe-bind J
        (if should_mark_webhook_healthy decision
          then record_processed_event command.connection_id i m.now WebhookHealthState.healthy
          else record_processed_event_preserving_webhook_health command.connection_id i m.now)
        (λ _. pure tt)
        (Preserves-if (λ db. J db.sync_runs) (should_mark_webhook_healthy decision) _ _
          (Safe-set_connection J command.connection_id _)
          (Safe-set_connection J command.connection_id _))
        (λ _ db h. h)
