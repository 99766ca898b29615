-- ===== src/Services/Safety/Retry.antt =====
-- The test whether a delivery is to be retried, which both services make.
use tci.Prelude.{Option, none, some, List, not, ◌==◌}
use tci.Models.Enums.Types.{EventProcessingStatus, ProcessingDecision}
use tci.Models.Enums.Equality.{processing_status_eq, processing_decision_eq}
use tci.Models.Rows.{Uuid, Instant, RepositorySyncRun, RepositoryEvent}
use tci.Session.{pure}
use tci.Session.Rules.{Preserves-if}
use tci.Persistence.SyncRuns.{get}
use tci.Services.Delivery.{is_retryable_delivery, queued_is_retryable, run_is_retryable}
use tci.Services.Safety.{Safe}
use tci.Services.Safety.Tables.{Safe-bind}

module _ (J : List RepositorySyncRun → Type 0) (clock : Instant) (c : Uuid) where
  Safe-queued_is_retryable : (run : Option Uuid) → Safe J (queued_is_retryable clock c run)
  unfolding get
  Safe-queued_is_retryable none = λ db h. h
  Safe-queued_is_retryable (some run) =
      Safe-bind J (get c run) (λ r. pure (run_is_retryable clock r)) (λ db h. h) (λ r db h. h)

  pub Safe-is_retryable :
      (existing : Option RepositoryEvent) → Safe J (is_retryable_delivery clock c existing)
  unfolding is_retryable_delivery
  Safe-is_retryable none = λ db h. h
  Safe-is_retryable (some event) =
      Preserves-if (λ db. J db.sync_runs)
        (event.processing_status == EventProcessingStatus.rejected) _ _ (λ db h. h)
        (Preserves-if (λ db. J db.sync_runs)
          (not (event.processing_decision == ProcessingDecision.queued)) _ _ (λ db h. h)
          (Preserves-if (λ db. J db.sync_runs)
            (event.processing_status == EventProcessingStatus.failed) _ _ (λ db h. h)
            (Preserves-if (λ db. J db.sync_runs)
              (not (event.processing_status == EventProcessingStatus.queued)) _ _ (λ db h. h)
              (Safe-queued_is_retryable event.sync_run_id))))
