-- ===== src/Queue/WebhookSync/Laws.antt =====
-- A whole task of the worker, with respect to the sync runs.
use tci.Prelude.{
  Bool, true, false, not, ◌&&◌, Option, none, some, List, String, ◌==◌, nat_eq, option_eq,
}
use tci.Models.Enums.Types.{
  ProcessingDecision, EventProcessingStatus, SyncFailureCode, WebhookHealthState,
}
use tci.Models.Rows.{Uuid, Instant, RepositoryEvent, RepositorySyncRun, RepositoryConnection}
use tci.Session.{Session, Database, Error, pure, raise, catch, ◌>>=◌, ◌>>◌}
use tci.Session.Rules.{Preserves-if, Preserves-catch, Preserves-scope}
use tci.Persistence.Connections.{get_any, record_sync_failure, record_processed_event}
use tci.Persistence.Events.{get_event, update_processing}
use tci.Persistence.SyncRuns.{get}
use tci.Persistence.SyncRuns.Operations.{
  mark_failed, claim_dispatch_enqueued, release_blocked_if_no_active,
}
use tci.Persistence.SyncRuns.Succeeded.{HasSucceeded}
use tci.Persistence.SyncRuns.Succeeded.Operations.{
  Keeps-claim, Keeps-release_if_no_active, Keeps-mark_failed,
}
use tci.Services.Safety.{Safe}
use tci.Services.Safety.Tables.{
  Safe-bind, Safe-get_event, Safe-update_processing, Safe-set_connection,
}
use tci.Queue.{Clock, TaskCall}
use tci.Queue.RestoreCursor.{restore_event_cursor}
use tci.Queue.DispatchFailure.{dispatch_next_pending_sync}
use tci.Queue.Safety.{Safe-restore_event_cursor, Safe-record_sync_failure, Safe-dispatch_next}
use tci.Queue.WebhookSync.{
  BuiltSnapshot, TaskResult, Start, stop, build_for, start_with, start_sync, belongs_to_run,
  complete_found, complete_event_of, complete_event, fail_run, is_unfinished, has_succeeded,
  note_failure, fail_own_event, fail_event, fail_webhook_sync, fail_with_event, build_and_complete,
  dispatch_next, on_error, finish_task, try_block, run_webhook_sync_task, start_for, message,
}

module _ (J : List RepositorySyncRun → Type 0)
    (fails : (c i : Uuid) (code : SyncFailureCode) (text : String) (at : Instant)
      → Safe J (mark_failed c i code text at))
    (c i : Uuid) where
  Safe-start_sync : (now : Instant) → Safe J (start_sync c i now)
  unfolding start_sync get_any get
  Safe-start_sync now =
      Preserves-scope (λ db. J db.sync_runs) (get_any c >>= start_with c i now)
        (Safe-bind J (get_any c) (start_with c i now) (λ db h. h) starts)
    where
      starts : (found : Option RepositoryConnection) → Safe J (start_with c i now found)
      starts none = λ db h. h
      starts (some connection) =
          Safe-bind J (get c i) (λ run. pure (start_for now run connection.workspace_id))
            (λ db h. h) (λ run db h. h)

  Safe-complete_event : (s : BuiltSnapshot) (e : Option Uuid) → Safe J (complete_event c i s e)
  unfolding complete_event
  Safe-complete_event s e =
      Preserves-scope (λ db. J db.sync_runs) (complete_event_of c i s e) (go e)
    where
      completes :
          (event_id : Uuid) (event : Option RepositoryEvent)
          → Safe J (complete_found c i s event_id event)
      completes event_id event =
          Preserves-if (λ db. J db.sync_runs) (not (belongs_to_run c i event)) _ _ (λ db h. h)
            (Safe-bind J
              (update_processing event_id ProcessingDecision.queued EventProcessingStatus.completed
                s.created_at none (some s.id) false)
              (λ _. pure tt)
              (Safe-update_processing J event_id ProcessingDecision.queued
                EventProcessingStatus.completed s.created_at none (some s.id) false)
              (λ _ db h. h))

      go : (e : Option Uuid) → Safe J (complete_event_of c i s e)
      go none = λ db h. h
      go (some event_id) =
          Safe-bind J (get_event event_id) (complete_found c i s event_id)
            (Safe-get_event J event_id) (completes event_id)

  Safe-fail_run : (at : Instant) (run : Option RepositorySyncRun) → Safe J (fail_run c i at run)
  Safe-fail_run at none = λ db h. h
  Safe-fail_run at (some run) =
      Preserves-if (λ db. J db.sync_runs) (not (is_unfinished run)) _ _ (λ db h. h)
        (Safe-bind J (mark_failed c i SyncFailureCode.snapshot_write_failed message at)
          (λ _. pure tt) (fails c i _ _ at) (λ _ db h. h))

  Safe-note_failure :
      (e : Uuid) (at : Instant) (found : Option RepositoryConnection)
      → Safe J (note_failure c i e at found)
  unfolding record_processed_event
  Safe-note_failure e at none = λ db h. h
  Safe-note_failure e at (some connection) =
      Safe-bind J (record_sync_failure connection.workspace_id c at none) (λ _. mark >> pure tt)
        (Safe-record_sync_failure J connection.workspace_id c at)
        (λ _. Safe-bind J mark (λ _. pure tt) (Safe-set_connection J c _) (λ _ db h. h))
    where
      mark : Session RepositoryConnection
      mark = record_processed_event c e at WebhookHealthState.healthy

  Safe-fail_own_event :
      (cursor_id : Uuid) (at : Instant) (failed : RepositoryEvent)
      (connection : Option RepositoryConnection)
      → Safe J (fail_own_event c i cursor_id at failed connection)
  Safe-fail_own_event cursor_id at failed connection =
      Safe-bind J
        (update_processing failed.id ProcessingDecision.queued EventProcessingStatus.failed at none
          none false)
        (λ _.
          restore_event_cursor cursor_id c failed at >> note_failure c i failed.id at connection)
        (Safe-update_processing J failed.id ProcessingDecision.queued EventProcessingStatus.failed
          at none none false)
        (λ _.
          Safe-bind J (restore_event_cursor cursor_id c failed at)
            (λ _. note_failure c i failed.id at connection)
            (Safe-restore_event_cursor J cursor_id c failed at)
            (λ _. Safe-note_failure failed.id at connection))

  Safe-fail_event :
      (cursor_id : Uuid) (at : Instant) (run : Option RepositorySyncRun)
      (connection : Option RepositoryConnection) (found : Option RepositoryEvent)
      → Safe J (fail_event c i cursor_id at run connection found)
  Safe-fail_event cursor_id at run connection none = λ db h. h
  Safe-fail_event cursor_id at run connection (some failed) =
      Preserves-if (λ db. J db.sync_runs) (failed.sync_run_id == some i && not (has_succeeded run))
        _ _ (Safe-fail_own_event cursor_id at failed connection) (λ db h. h)

  Safe-fail_webhook_sync :
      (cursor_id : Uuid) (at : Instant) (e : Uuid) → Safe J (fail_webhook_sync c i cursor_id at e)
  unfolding fail_webhook_sync get_any get
  Safe-fail_webhook_sync cursor_id at e =
      Preserves-scope (λ db. J db.sync_runs) (get_event e >>= with_event)
        (Safe-bind J (get_event e) with_event (Safe-get_event J e) λ found.
          Safe-bind J (get_any c) (with_connection found) (λ db h. h)
            λ connection.
              Safe-bind J (get c i) (with_run found connection) (λ db h. h)
                λ run.
                  Safe-bind J (fail_run c i at run)
                    (λ _. fail_event c i cursor_id at run connection found) (Safe-fail_run at run)
                    (λ _. Safe-fail_event cursor_id at run connection found))
    where
      with_run :
          Option RepositoryEvent
          → Option RepositoryConnection
          → Option RepositorySyncRun
          → Session Unit
      with_run found connection run =
          fail_run c i at run >> fail_event c i cursor_id at run connection found

      with_connection : Option RepositoryEvent → Option RepositoryConnection → Session Unit
      with_connection found connection = get c i >>= with_run found connection

      with_event : Option RepositoryEvent → Session Unit
      with_event found = get_any c >>= with_connection found

  module _
      (claims : (c i : Uuid) (at : Instant) (before : Option Instant)
        → Safe J (claim_dispatch_enqueued c i at before))
      (releases : (c i : Uuid) (at : Instant) → Safe J (release_blocked_if_no_active c i at))
      (build : Uuid → Bool → Session BuiltSnapshot)
      (builds : (w : Uuid) (again : Bool) → Safe J (build w again)) (sends : TaskCall → Bool)
      (has_redis : Bool) (cursor_id : Uuid) (now : Instant) (clock : Clock) (e : Option Uuid) where
    Safe-dispatch : Safe J (dispatch_next build sends has_redis cursor_id now clock c i e)
    Safe-dispatch =
        Safe-bind J (dispatch_next_pending_sync sends cursor_id clock c i has_redis e)
          (λ _. pure tt)
          (Safe-dispatch_next J claims releases fails sends cursor_id clock c i has_redis e)
          (λ _ db h. h)

    Safe-build_and_complete :
        (s : Start) → Safe J (build_and_complete build sends has_redis cursor_id now clock c i e s)
    Safe-build_and_complete (stop result) = λ db h. h
    Safe-build_and_complete (build_for w again) =
        Safe-bind J (build w again) _ (builds w again)
          (λ s. Safe-bind J (complete_event c i s e) _ (Safe-complete_event s e) (λ _ db h. h))

    Safe-on_error :
        (x : Error) → Safe J (on_error build sends has_redis cursor_id now clock c i e x)
    Safe-on_error x =
        Safe-bind J (fail_with_event c i cursor_id clock.failed_at e)
          (λ _. dispatch_next build sends has_redis cursor_id now clock c i e >> raise x) (go e)
          (λ _.
            Safe-bind J (dispatch_next build sends has_redis cursor_id now clock c i e)
              (λ _. raise x) Safe-dispatch (λ _ db h. h))
      where
        go : (e : Option Uuid) → Safe J (fail_with_event c i cursor_id clock.failed_at e)
        go none = λ db h. h
        go (some event_id) = Safe-fail_webhook_sync cursor_id clock.failed_at event_id

    Safe-task : Safe J (run_webhook_sync_task build sends has_redis cursor_id now clock c i e)
    unfolding run_webhook_sync_task
    Safe-task =
        Safe-bind J
          (catch (try_block build sends has_redis cursor_id now clock c i e)
            (on_error build sends has_redis cursor_id now clock c i e))
          (finish_task build sends has_redis cursor_id now clock c i e)
          (Preserves-catch (λ db. J db.sync_runs)
            (try_block build sends has_redis cursor_id now clock c i e)
            (on_error build sends has_redis cursor_id now clock c i e)
            (Safe-bind J (start_sync c i now)
              (build_and_complete build sends has_redis cursor_id now clock c i e)
              (Safe-start_sync now) Safe-build_and_complete)
            Safe-on_error)
          finishes
      where
        finishes :
            (r : TaskResult × Bool)
            → Safe J (finish_task build sends has_redis cursor_id now clock c i e r)
        finishes (result, false) = λ db h. h
        finishes (result, true) =
            Safe-bind J (dispatch_next build sends has_redis cursor_id now clock c i e)
              (λ _. pure result) Safe-dispatch (λ _ db h. h)

-- Where the service that builds snapshots keeps a succeeded sync run, a webhook task keeps it as well,
-- of whatever run, however the task ends: its completion of the event, its failure handling, the
-- dispatch of the next run and the failure of that dispatch undo no success.
pub task_keeps_succeeded :
    (k j : Uuid) (build : Uuid → Bool → Session BuiltSnapshot)
    → ((w : Uuid) (again : Bool) (db : Database)
        → HasSucceeded k j db.sync_runs
        → HasSucceeded k j (build w again db).1.sync_runs)
    → (sends : TaskCall → Bool) (has_redis : Bool) (cursor_id : Uuid) (now : Instant)
      (clock : Clock) (c i : Uuid) (event_id : Option Uuid) (db : Database)
    → HasSucceeded k j db.sync_runs
    → HasSucceeded k j
        (run_webhook_sync_task build sends has_redis cursor_id now clock c i event_id
          db).1.sync_runs
task_keeps_succeeded k j build builds sends has_redis cursor_id now clock c i event_id =
    Safe-task (HasSucceeded k j) (Keeps-mark_failed k j) c i (Keeps-claim k j)
      (Keeps-release_if_no_active k j) build builds sends has_redis cursor_id now clock event_id
