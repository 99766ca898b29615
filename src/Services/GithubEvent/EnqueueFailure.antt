-- ===== src/Services/GithubEvent/EnqueueFailure.antt =====
-- `record_webhook_enqueue_failure` of domain/services/process_github_event.py, with a session
-- factory: the sync could not be put on the queue, so that the delivery may be retried.
use tci.Prelude.{none, some, false}
use tci.Models.Enums.Types.{ProcessingDecision, EventProcessingStatus}
use tci.Models.Rows.{Uuid, Instant}
use tci.Session.{Session, pure, require, session_scope, lookup_error, ◌>>=◌, ◌>>◌}
use tci.Persistence.Connections.{get_any, record_webhook_delivery_failure}
use tci.Persistence.Events.{get_event, update_processing}
use tci.Persistence.SyncRuns.Operations.{clear_dispatch_enqueued}

module _ (connection_id event_id sync_run_id : Uuid) (failed_at : Instant) where
  -- What is written once the connection and the event are there.
  abbrev pub give_back : Session Unit
  give_back = do
    clear_dispatch_enqueued connection_id sync_run_id
    update_processing event_id ProcessingDecision.queued EventProcessingStatus.queued failed_at
        (some sync_run_id) none false
    record_webhook_delivery_failure connection_id event_id failed_at
    pure tt

  unfoldable pub record_webhook_enqueue_failure : Session Unit
  unfolding get_any get_event clear_dispatch_enqueued update_processing
      record_webhook_delivery_failure session_scope
  record_webhook_enqueue_failure = session_scope do
    connection ← get_any connection_id
    require lookup_error connection
    event ← get_event event_id
    require lookup_error event
    give_back
