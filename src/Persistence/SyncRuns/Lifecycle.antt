-- ===== src/Persistence/SyncRuns/Lifecycle.antt =====
-- The operations of the sync run table as steps of one machine, whoever calls them and in whatever
-- order, and what they never undo.
use tci.Prelude.{Option, List, [], ◌∷◌, String}
use tci.Models.Enums.Types.{SyncRunStatus, SyncFailureCode}
use tci.Models.Enums.Equality.{sync_run_status_eq}
use tci.Models.Rows.{Uuid, Instant}
use tci.Session.{Database}
use tci.Persistence.SyncRuns.{create_pending, create_blocked, RepositorySyncRunDraft}
use tci.Persistence.SyncRuns.Operations.{
  update_blocked_trigger_event, release_blocked, release_blocked_if_no_active,
  mark_dispatch_enqueued, clear_dispatch_enqueued, claim_dispatch_enqueued, mark_running,
  mark_succeeded, mark_failed, delete_pending,
}
use tci.Persistence.SyncRuns.Succeeded.{HasSucceeded}
use tci.Persistence.SyncRuns.Succeeded.Operations.{
  Keeps-mark_succeeded, Keeps-mark_failed, Keeps-mark_dispatch_enqueued,
  Keeps-clear_dispatch_enqueued, Keeps-update_blocked, Keeps-release_blocked, Keeps-delete_pending,
  Keeps-claim, Keeps-mark_running, Keeps-release_if_no_active, Keeps-create,
}

-- A call of the repository, with its arguments.
pub data Call : Type 0 where
  create_pending_call create_blocked_call : Instant → RepositorySyncRunDraft → Call
  update_blocked_call : Uuid → Uuid → Option Uuid → Instant → Call
  release_call release_if_no_active_call : Uuid → Uuid → Instant → Call
  enqueued_call running_call : Uuid → Uuid → Instant → Call
  clear_call delete_call : Uuid → Uuid → Call
  claim_call : Uuid → Uuid → Instant → Option Instant → Call
  succeeded_call : Uuid → Uuid → String → Instant → Call
  failed_call : Uuid → Uuid → SyncFailureCode → String → Instant → Call

-- The database that a call leaves, whether it returns or raises.
pub step : Database → Call → Database
step db (create_pending_call now draft) = (create_pending now draft db).1
step db (create_blocked_call now draft) = (create_blocked now draft db).1
step db (update_blocked_call c i event at) = (update_blocked_trigger_event c i event at db).1
step db (release_call c i at) = (release_blocked c i at db).1
step db (release_if_no_active_call c i at) = (release_blocked_if_no_active c i at db).1
step db (enqueued_call c i at) = (mark_dispatch_enqueued c i at db).1
step db (running_call c i at) = (mark_running c i at db).1
step db (clear_call c i) = (clear_dispatch_enqueued c i db).1
step db (delete_call c i) = (delete_pending c i db).1
step db (claim_call c i at before) = (claim_dispatch_enqueued c i at before db).1
step db (succeeded_call c i sha at) = (mark_succeeded c i sha at db).1
step db (failed_call c i code message at) = (mark_failed c i code message at db).1

pub run : Database → List Call → Database
run db [] = db
run db (call ∷ calls) = run (step db call) calls

step_keeps :
    (c i : Uuid) (call : Call) (db : Database)
    → HasSucceeded c i db.sync_runs
    → HasSucceeded c i (step db call).sync_runs
unfolding step create_pending create_blocked
step_keeps c i (create_pending_call now draft) = Keeps-create c i SyncRunStatus.pending now draft
step_keeps c i (create_blocked_call now draft) = Keeps-create c i SyncRunStatus.blocked now draft
step_keeps c i (update_blocked_call c' i' event at) = Keeps-update_blocked c i c' i' event at
step_keeps c i (release_call c' i' at) = Keeps-release_blocked c i c' i' at
step_keeps c i (release_if_no_active_call c' i' at) = Keeps-release_if_no_active c i c' i' at
step_keeps c i (enqueued_call c' i' at) = Keeps-mark_dispatch_enqueued c i c' i' at
step_keeps c i (running_call c' i' at) = Keeps-mark_running c i c' i' at
step_keeps c i (clear_call c' i') = Keeps-clear_dispatch_enqueued c i c' i'
step_keeps c i (delete_call c' i') = Keeps-delete_pending c i c' i'
step_keeps c i (claim_call c' i' at before) = Keeps-claim c i c' i' at before
step_keeps c i (succeeded_call c' i' sha at) = Keeps-mark_succeeded c i c' i' sha at
step_keeps c i (failed_call c' i' code message at) = Keeps-mark_failed c i c' i' code message at

-- A sync run that has succeeded is there and has succeeded after any sequence of calls of the
-- repository, those that raise included: no retry, late failure, release or deletion undoes it.
pub succeeded_stays :
    (c i : Uuid) (calls : List Call) (db : Database)
    → HasSucceeded c i db.sync_runs
    → HasSucceeded c i (run db calls).sync_runs
unfolding run
succeeded_stays c i [] db h = h
succeeded_stays c i (call ∷ calls) db h =
    succeeded_stays c i calls (step db call) (step_keeps c i call db h)
