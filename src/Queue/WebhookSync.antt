-- ===== src/Queue/WebhookSync.antt =====
-- `_run_webhook_sync_task` and `_mark_manual_snapshot_sync_failed`, with a session factory. The
-- service that builds the snapshot is a parameter, as it is for the worker, which loads it when it
-- runs; each of its calls is given whether a run in progress may be taken up again.
pub mod Laws
use tci.Prelude.{
  ℕ, ◌+◌, Bool, true, false, not, ◌&&◌, ◌||◌, Option, none, some, String, ltb, if◌then◌else◌, ◌==◌,
  nat_eq, option_eq, is_some,
}
use tci.Models.Enums.Types.{
  ProcessingDecision, EventProcessingStatus, SyncFailureCode, SyncRunStatus, WebhookHealthState,
}
use tci.Models.Enums.Equality.{sync_run_status_eq}
use tci.Models.Rows.{Uuid, Instant, RepositoryEvent, RepositorySyncRun, RepositoryConnection}
use tci.Session.{
  Session, Error, problem, ProblemCode, pure, raise, catch, session_scope, ◌>>=◌, ◌>>◌,
}
use tci.Persistence.Connections.{get_any, record_sync_failure, record_processed_event}
use tci.Persistence.Events.{get_event, update_processing}
use tci.Persistence.SyncRuns.{get}
use tci.Persistence.SyncRuns.Operations.{mark_failed}
use tci.Queue.{Clock, TaskCall, stale_after}
use tci.Queue.RestoreCursor.{restore_event_cursor}
use tci.Queue.DispatchFailure.{dispatch_next_pending_sync, ignore_errors}

-- What the task reads of a snapshot.
pub record BuiltSnapshot : Type 0 where
  pub id : Uuid
  pub created_at : Instant

-- The status of the task's result.
pub data TaskResult : Type 0 where
  registered in_progress : TaskResult
  completed : Uuid → TaskResult

-- How the task goes on: it returns, or it builds for the workspace, with `allow_running_retry`.
pub data Start : Type 0 where
  stop : TaskResult → Start
  build_for : Uuid → Bool → Start

-- `_running_sync_run_is_stale`
abbrev pub running_sync_run_is_stale : Instant → RepositorySyncRun → Bool
running_sync_run_is_stale now run = ltb (run.started_at + stale_after) now

abbrev pub is_running : Option RepositorySyncRun → Bool
is_running none = false
is_running (some run) = run.status == SyncRunStatus.running

abbrev pub is_stale : Instant → Option RepositorySyncRun → Bool
is_stale now none = false
is_stale now (some run) = running_sync_run_is_stale now run

abbrev pub start_for : Instant → Option RepositorySyncRun → Uuid → Start
start_for now run workspace_id =
    if is_running run && not (is_stale now run)
    then stop in_progress
    else build_for workspace_id (is_running run)

abbrev pub has_succeeded : Option RepositorySyncRun → Bool
has_succeeded none = false
has_succeeded (some run) = run.status == SyncRunStatus.succeeded

-- `sync_run.status not in {FAILED, SUCCEEDED}`
abbrev pub is_unfinished : RepositorySyncRun → Bool
is_unfinished run =
    not (run.status == SyncRunStatus.failed) && not (run.status == SyncRunStatus.succeeded)

abbrev pub message : String
message = "웹훅 스냅샷 처리 중 예기치 못한 오류가 발생했습니다."

module _ (connection_id sync_run_id : Uuid) where
  abbrev pub start_with : Instant → Option RepositoryConnection → Session Start
  start_with now none = pure (stop registered)
  start_with now (some connection) = do
    run ← get connection_id sync_run_id
    pure (start_for now run connection.workspace_id)

  -- The first transaction.
  unfoldable pub start_sync : Instant → Session Start
  unfolding get get_any session_scope
  start_sync now = session_scope do connection ← get_any connection_id; start_with now connection

  abbrev pub belongs_to_run : Option RepositoryEvent → Bool
  belongs_to_run none = false
  belongs_to_run (some event) = event.sync_run_id == some sync_run_id

  abbrev pub complete_found : BuiltSnapshot → Uuid → Option RepositoryEvent → Session Unit
  complete_found snapshot event_id event = if not (belongs_to_run event) then pure tt else do
    update_processing event_id ProcessingDecision.queued EventProcessingStatus.completed
        snapshot.created_at none (some snapshot.id) false
    pure tt

  abbrev pub complete_event_of : BuiltSnapshot → Option Uuid → Session Unit
  complete_event_of snapshot none = pure tt
  complete_event_of snapshot (some event_id) = do
    event ← get_event event_id
    complete_found snapshot event_id event

  -- The transaction after the snapshot.
  unfoldable pub complete_event : BuiltSnapshot → Option Uuid → Session Unit
  unfolding get_event update_processing session_scope
  complete_event snapshot event_id = session_scope (complete_event_of snapshot event_id)

  abbrev pub fail_run : Instant → Option RepositorySyncRun → Session Unit
  fail_run failed_at none = pure tt
  fail_run failed_at (some run) = if not (is_unfinished run) then pure tt else do
    mark_failed connection_id sync_run_id SyncFailureCode.snapshot_write_failed message failed_at
    pure tt

  abbrev pub note_failure : Uuid → Instant → Option RepositoryConnection → Session Unit
  note_failure event_id failed_at none = pure tt
  note_failure event_id failed_at (some connection) = do
    record_sync_failure connection.workspace_id connection_id failed_at none
    record_processed_event connection_id event_id failed_at WebhookHealthState.healthy
    pure tt

  abbrev pub fail_own_event :
      Uuid → Instant → RepositoryEvent → Option RepositoryConnection → Session Unit
  fail_own_event cursor_id failed_at failed connection = do
    update_processing failed.id ProcessingDecision.queued EventProcessingStatus.failed failed_at
        none none false
    restore_event_cursor cursor_id connection_id failed failed_at
    note_failure failed.id failed_at connection

  abbrev pub fail_event :
      Uuid
      → Instant
      → Option RepositorySyncRun
      → Option RepositoryConnection
      → Option RepositoryEvent
      → Session Unit
  fail_event cursor_id failed_at run connection none = pure tt
  fail_event cursor_id failed_at run connection (some failed) =
      if failed.sync_run_id == some sync_run_id && not (has_succeeded run)
      then fail_own_event cursor_id failed_at failed connection
      else pure tt

  -- The transaction of the handler, for a task that has an event.
  unfoldable pub fail_webhook_sync : Uuid → Instant → Uuid → Session Unit
  unfolding get get_any get_event mark_failed update_processing restore_event_cursor
      record_sync_failure record_processed_event session_scope
  fail_webhook_sync cursor_id failed_at event_id = session_scope do
    failed_event ← get_event event_id
    connection ← get_any connection_id
    run ← get connection_id sync_run_id
    fail_run failed_at run
    fail_event cursor_id failed_at run connection failed_event

  abbrev pub fail_with_event : Uuid → Instant → Option Uuid → Session Unit
  fail_with_event cursor_id failed_at none = pure tt
  fail_with_event cursor_id failed_at (some event_id) =
      fail_webhook_sync cursor_id failed_at event_id

module _ (build : Uuid → Bool → Session BuiltSnapshot) (sends : TaskCall → Bool) (has_redis : Bool)
    (cursor_id : Uuid) (now : Instant) (clock : Clock) (connection_id sync_run_id : Uuid)
    (event_id : Option Uuid) where
  -- What the try block leaves: the result to return, or the snapshot.
  abbrev pub build_and_complete : Start → Session (TaskResult × Bool)
  build_and_complete (stop result) = pure (result, false)
  build_and_complete (build_for workspace_id allow_running_retry) = do
    snapshot ← build workspace_id allow_running_retry
    complete_event connection_id sync_run_id snapshot event_id
    pure (completed snapshot.id, true)

  abbrev pub dispatch_next : Session Unit
  dispatch_next = do
    dispatch_next_pending_sync sends cursor_id clock connection_id sync_run_id has_redis event_id
    pure tt

  abbrev pub on_error : Error → Session (TaskResult × Bool)
  on_error e = do
    fail_with_event connection_id sync_run_id cursor_id clock.failed_at event_id
    dispatch_next
    raise e

  abbrev pub finish_task : TaskResult × Bool → Session TaskResult
  finish_task (result, false) = pure result
  finish_task (result, true) = do dispatch_next; pure result

  abbrev pub try_block : Session (TaskResult × Bool)
  try_block = do started ← start_sync connection_id sync_run_id now; build_and_complete started

  unfoldable pub run_webhook_sync_task : Session TaskResult
  unfolding start_sync complete_event fail_webhook_sync dispatch_next_pending_sync
  run_webhook_sync_task = do done ← catch try_block on_error; finish_task done

-- `_manual_snapshot_failure_code`
abbrev pub manual_snapshot_failure_code : Error → SyncFailureCode
manual_snapshot_failure_code (problem ProblemCode.default_ref_not_found) =
    SyncFailureCode.ref_not_found
manual_snapshot_failure_code (problem ProblemCode.connection_auth_failed) =
    SyncFailureCode.auth_failed
manual_snapshot_failure_code _ = SyncFailureCode.snapshot_write_failed

module _ (workspace_id connection_id sync_run_id : Uuid) (failed_at : Instant) (error : Error)
    (failure_message : String) where
  abbrev pub fail_manual_run : Option RepositorySyncRun → Session Unit
  fail_manual_run none = pure tt
  fail_manual_run (some run) = if run.status == SyncRunStatus.failed then pure tt else do
    mark_failed connection_id sync_run_id (manual_snapshot_failure_code error) failure_message
        failed_at
    record_sync_failure workspace_id connection_id failed_at none
    pure tt

  -- `_mark_manual_snapshot_sync_failed`, with dependencies and the text of the error.
  unfoldable pub mark_manual_snapshot_sync_failed : Session Unit
  unfolding get mark_failed record_sync_failure session_scope
  mark_manual_snapshot_sync_failed =
      ignore_errors (session_scope do run ← get connection_id sync_run_id; fail_manual_run run)
