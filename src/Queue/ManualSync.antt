-- ===== src/Queue/ManualSync.antt =====
-- `run_manual_snapshot_sync`, with the dependencies of the worker and identifiers that are UUIDs. The
-- text of an error is a parameter.
use tci.Prelude.{ℕ, Bool, false, Option, none, some, List, String, ◌==◌}
use tci.Models.Enums.Types.{SyncFailureCode, SyncRunStatus}
use tci.Models.Enums.Equality.{sync_run_status_eq}
use tci.Models.Rows.{Uuid, Instant, RepositorySyncRun}
use tci.Session.{Session, Database, Error, pure, raise, catch, session_scope, ◌>>=◌, ◌>>◌}
use tci.Session.Rules.{Preserves-if, Preserves-catch, Preserves-scope}
use tci.Persistence.Connections.{record_sync_failure}
use tci.Persistence.SyncRuns.{get}
use tci.Persistence.SyncRuns.Operations.{mark_failed}
use tci.Persistence.SyncRuns.Succeeded.{HasSucceeded}
use tci.Persistence.SyncRuns.Succeeded.Operations.{
  Keeps-claim, Keeps-release_if_no_active, Keeps-mark_failed,
}
use tci.Webhooks.Scope.{PathRules}
use tci.Services.Platform.{Platform}
use tci.Services.Safety.{Safe}
use tci.Services.Safety.Tables.{Safe-bind}
use tci.Services.Safety.Snapshot.Build.{build_keeps_succeeded}
use tci.Services.Snapshot.{BuildCodeSnapshotCommand, Attempt}
use tci.Services.Snapshot.Build.{build_code_snapshot}
use tci.Queue.{Clock, TaskCall}
use tci.Queue.DispatchFailure.{dispatch_next_pending_sync}
use tci.Queue.Safety.{Safe-record_sync_failure, Safe-dispatch_next}
use tci.Queue.WebhookSync.{
  fail_manual_run, mark_manual_snapshot_sync_failed, manual_snapshot_failure_code,
}

module _ {Rest : Type 0} (p : Platform) (r : PathRules) (attempts : ℕ → Attempt Rest)
    (show_error : Error → String) (sends : TaskCall → Bool) (has_redis : Bool) (cursor_id : Uuid)
    (clock : Clock) (command : BuildCodeSnapshotCommand) where
  abbrev pub dispatch_after : Session Unit
  dispatch_after = do
    dispatch_next_pending_sync sends cursor_id clock command.connection_id command.sync_run_id
        has_redis none
    pure tt

  abbrev pub build_manually : Session Unit
  build_manually = do build_code_snapshot p r command attempts 1 false; pure tt

  abbrev pub on_manual_error : Error → Session Unit
  on_manual_error error = do
    mark_manual_snapshot_sync_failed command.workspace_id command.connection_id command.sync_run_id
        clock.failed_at error (show_error error)
    dispatch_after
    raise error

  unfoldable pub run_manual_snapshot_sync_task : Session Unit
  unfolding build_code_snapshot mark_manual_snapshot_sync_failed dispatch_next_pending_sync
  run_manual_snapshot_sync_task = do catch build_manually on_manual_error; dispatch_after

module _ (J : List RepositorySyncRun → Type 0)
    (fails : (c i : Uuid) (code : SyncFailureCode) (text : String) (at : Instant)
      → Safe J (mark_failed c i code text at)) where
  Safe-mark_manual :
      (w c i : Uuid) (at : Instant) (x : Error) (text : String)
      → Safe J (mark_manual_snapshot_sync_failed w c i at x text)
  unfolding mark_manual_snapshot_sync_failed get
  Safe-mark_manual w c i at x text =
      Preserves-catch (λ db. J db.sync_runs) (session_scope body) (λ e. pure tt)
        (Preserves-scope (λ db. J db.sync_runs) body
          (Safe-bind J (get c i) (fail_manual_run w c i at x text) (λ db h. h) marks))
        (λ e db h. h)
    where
      body : Session Unit
      body = get c i >>= fail_manual_run w c i at x text

      marks : (run : Option RepositorySyncRun) → Safe J (fail_manual_run w c i at x text run)
      marks none = λ db h. h
      marks (some run) =
          Preserves-if (λ db. J db.sync_runs) (run.status == SyncRunStatus.failed) _ _ (λ db h. h)
            (Safe-bind J (mark_failed c i (manual_snapshot_failure_code x) text at)
              (λ _. record_sync_failure w c at none >>= λ _. pure tt) (fails c i _ text at)
              λ _.
                Safe-bind J (record_sync_failure w c at none) (λ _. pure tt)
                  (Safe-record_sync_failure J w c at) (λ _ db h. h))

-- A manual task takes no succeeded sync run out of its status, neither by its snapshot nor by what it
-- records of its failure nor by the dispatch of the next run, where what other sessions commit while
-- git runs does not.
pub manual_sync_keeps_succeeded :
    (k j : Uuid) {Rest : Type 0} (p : Platform) (r : PathRules) (attempts : ℕ → Attempt Rest)
    → ((n : ℕ) (db : Database)
        → HasSucceeded k j db.sync_runs
        → HasSucceeded k j ((attempts n).elsewhere db).sync_runs)
    → (show_error : Error → String) (sends : TaskCall → Bool) (has_redis : Bool) (cursor_id : Uuid)
      (clock : Clock) (command : BuildCodeSnapshotCommand) (db : Database)
    → HasSucceeded k j db.sync_runs
    → HasSucceeded k j
        (run_manual_snapshot_sync_task p r attempts show_error sends has_redis cursor_id clock
          command db).1.sync_runs
unfolding run_manual_snapshot_sync_task
manual_sync_keeps_succeeded k j p r attempts commits show_error sends has_redis cursor_id clock
      command =
    Safe-bind (HasSucceeded k j) (catch build handle) (λ _. dispatch)
      (Preserves-catch (λ db. HasSucceeded k j db.sync_runs) build handle
        (Safe-bind (HasSucceeded k j) (build_code_snapshot p r command attempts 1 false)
          (λ s. pure tt) (build_keeps_succeeded k j p r command attempts commits 1 false)
          (λ s db h. h))
        handles)
      (λ _. dispatches)
  where
    build : Session Unit
    build = build_manually p r attempts show_error sends has_redis cursor_id clock command

    handle : Error → Session Unit
    handle = on_manual_error p r attempts show_error sends has_redis cursor_id clock command

    dispatch : Session Unit
    dispatch = dispatch_after p r attempts show_error sends has_redis cursor_id clock command

    dispatches : Safe (HasSucceeded k j) dispatch
    dispatches =
        Safe-bind (HasSucceeded k j)
          (dispatch_next_pending_sync sends cursor_id clock command.connection_id
            command.sync_run_id has_redis none)
          (λ _. pure tt)
          (Safe-dispatch_next (HasSucceeded k j) (Keeps-claim k j) (Keeps-release_if_no_active k j)
            (Keeps-mark_failed k j) sends cursor_id clock command.connection_id command.sync_run_id
            has_redis none)
          (λ _ db h. h)

    handles : (x : Error) → Safe (HasSucceeded k j) (handle x)
    handles x =
        Safe-bind (HasSucceeded k j)
          (mark_manual_snapshot_sync_failed command.workspace_id command.connection_id
            command.sync_run_id clock.failed_at x (show_error x))
          (λ _. dispatch >>= λ _. raise x)
          (Safe-mark_manual (HasSucceeded k j) (Keeps-mark_failed k j) command.workspace_id
            command.connection_id command.sync_run_id clock.failed_at x (show_error x))
          (λ _. Safe-bind (HasSucceeded k j) dispatch (λ _. raise x) dispatches (λ _ db h. h))
