-- ===== src/Queue/DispatchFailure.antt =====
-- `_mark_pending_sync_dispatch_failed`, and the sending of the task that was chosen. Whether the
-- broker takes a task is a parameter.
use tci.Prelude.{Bool, false, not, Option, none, some, if◌then◌else◌}
use tci.Models.Enums.Types.{ProcessingDecision, EventProcessingStatus, SyncFailureCode}
use tci.Models.Rows.{Uuid, Instant, RepositoryEvent, RepositorySyncRun, RepositoryConnection}
use tci.Session.{Session, pure, catch, session_scope, ◌>>=◌, ◌>>◌}
use tci.Persistence.Connections.{get_any, record_sync_failure}
use tci.Persistence.Events.{get_event, update_processing}
use tci.Persistence.SyncRuns.{get}
use tci.Persistence.SyncRuns.Operations.{mark_failed}
use tci.Queue.{Clock, TaskCall, run_manual_snapshot_sync, run_webhook_sync}
use tci.Queue.RestoreCursor.{restore_event_cursor}
use tci.Queue.Dispatch.{choose_next}

-- `except Exception`, with a line in the log.
abbrev pub ignore_errors : Session Unit → Session Unit
ignore_errors m = catch m (λ e. pure tt)

module _ (cursor_id : Uuid) (failed_at : Instant) (connection_id sync_run_id : Uuid) where
  abbrev pub restore_for : Option RepositoryEvent → Session Unit
  restore_for none = pure tt
  restore_for (some failed) = restore_event_cursor cursor_id connection_id failed failed_at

  abbrev pub fail_trigger : Option Uuid → Session Unit
  fail_trigger none = pure tt
  fail_trigger (some event_id) = do
    update_processing event_id ProcessingDecision.queued EventProcessingStatus.failed failed_at
        (some sync_run_id) none false
    failed ← get_event event_id
    restore_for failed

  abbrev pub fail_dispatch : Option RepositorySyncRun → Option RepositoryConnection → Session Unit
  fail_dispatch (some run) (some connection) = do
    mark_failed connection_id sync_run_id SyncFailureCode.queue_dispatch_failed
        "후속 스냅샷 작업 큐에 연결할 수 없습니다." failed_at
    fail_trigger run.trigger_event_id
    record_sync_failure connection.workspace_id connection_id failed_at none
    pure tt
  fail_dispatch _ _ = pure tt

  unfoldable pub mark_pending_sync_dispatch_failed : Session Unit
  unfolding get get_any get_event mark_failed update_processing restore_event_cursor
      record_sync_failure session_scope
  mark_pending_sync_dispatch_failed = ignore_errors (
      session_scope do
        run ← get connection_id sync_run_id
        connection ← get_any connection_id
        fail_dispatch run connection)

-- `pending_sync_run.id`, as the task carries it.
abbrev pub run_of_task : TaskCall → Uuid
run_of_task (run_manual_snapshot_sync workspace_id connection_id run_id) = run_id
run_of_task (run_webhook_sync connection_id run_id event_id) = run_id

module _ (sends : TaskCall → Bool) (cursor_id : Uuid) (clock : Clock)
    (connection_id completed_id : Uuid) where
  -- The task that the broker has taken.
  abbrev pub send_chosen : Option TaskCall → Session (Option TaskCall)
  send_chosen none = pure none
  send_chosen (some call) = if sends call then pure (some call) else do
    mark_pending_sync_dispatch_failed cursor_id clock.failed_at connection_id (run_of_task call)
    pure none

  -- `_dispatch_next_pending_sync_for_ref`, with a session factory, and with or without a Redis URL.
  unfoldable pub dispatch_next_pending_sync : Bool → Option Uuid → Session (Option TaskCall)
  unfolding choose_next session_scope mark_pending_sync_dispatch_failed
  dispatch_next_pending_sync has_redis event_id = if not has_redis then pure none else do
    chosen ← session_scope (choose_next clock connection_id completed_id event_id)
    send_chosen chosen
