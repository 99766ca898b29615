-- ===== src/Queue/SnapshotTask.antt =====
-- The webhook task with domain/services/build_code_snapshot.py as the service that it loads.
use tci.Prelude.{ℕ, Bool, Option}
use tci.Models.Rows.{Uuid, Instant, CodeSnapshot}
use tci.Session.{Session, Database, pure, ◌>>=◌}
use tci.Persistence.SyncRuns.Succeeded.{HasSucceeded}
use tci.Webhooks.Scope.{PathRules}
use tci.Services.Platform.{Platform}
use tci.Services.Safety.Tables.{Safe-bind}
use tci.Services.Safety.Snapshot.Build.{build_keeps_succeeded}
use tci.Services.Snapshot.{BuildCodeSnapshotCommand, Attempt}
use tci.Services.Snapshot.Build.{build_code_snapshot}
use tci.Queue.{Clock, TaskCall}
use tci.Queue.WebhookSync.{BuiltSnapshot, TaskResult, run_webhook_sync_task}
use tci.Queue.WebhookSync.Laws.{task_keeps_succeeded}

module _ {Rest : Type 0} (p : Platform) (r : PathRules) (attempts : ℕ → Attempt Rest)
    (connection_id sync_run_id : Uuid) where
  abbrev pub command_for : Uuid → BuildCodeSnapshotCommand
  command_for workspace_id = record {
    workspace_id = workspace_id;
    connection_id = connection_id;
    sync_run_id = sync_run_id;
  }

  abbrev pub built : CodeSnapshot → BuiltSnapshot
  built snapshot = record { id = snapshot.id; created_at = snapshot.created_at }

  -- The task's call of the service, with the default of `_scope_retry_count`.
  unfoldable pub build_for_task : Uuid → Bool → Session BuiltSnapshot
  unfolding build_code_snapshot
  build_for_task workspace_id allow_running_retry = do
    snapshot ← build_code_snapshot p r (command_for workspace_id) attempts 1 allow_running_retry
    pure (built snapshot)

  abbrev pub webhook_sync :
      (TaskCall → Bool) → Bool → Uuid → Instant → Clock → Option Uuid → Session TaskResult
  webhook_sync sends has_redis cursor_id now clock event_id =
      run_webhook_sync_task build_for_task sends has_redis cursor_id now clock connection_id
        sync_run_id event_id

  Keeps-build_for_task :
      (k j : Uuid)
      → ((n : ℕ) (db : Database)
          → HasSucceeded k j db.sync_runs
          → HasSucceeded k j ((attempts n).elsewhere db).sync_runs)
      → (w : Uuid) (again : Bool) (db : Database) → HasSucceeded k j db.sync_runs
      → HasSucceeded k j (build_for_task w again db).1.sync_runs
  unfolding build_for_task
  Keeps-build_for_task k j commits w again =
      Safe-bind (HasSucceeded k j) (build_code_snapshot p r (command_for w) attempts 1 again)
        (λ s. pure (built s))
        (build_keeps_succeeded k j p r (command_for w) attempts commits 1 again) (λ s db h. h)

-- A webhook task with its snapshot, from the first transaction to the dispatch of the next run, takes
-- no succeeded sync run out of its status, where what other sessions commit while git runs does not.
pub webhook_sync_keeps_succeeded :
    (k j : Uuid) {Rest : Type 0} (p : Platform) (r : PathRules) (attempts : ℕ → Attempt Rest)
    → ((n : ℕ) (db : Database)
        → HasSucceeded k j db.sync_runs
        → HasSucceeded k j ((attempts n).elsewhere db).sync_runs)
    → (c i : Uuid) (sends : TaskCall → Bool) (has_redis : Bool) (cursor_id : Uuid) (now : Instant)
      (clock : Clock) (event_id : Option Uuid) (db : Database)
    → HasSucceeded k j db.sync_runs
    → HasSucceeded k j
        (webhook_sync p r attempts c i sends has_redis cursor_id now clock event_id db).1.sync_runs
webhook_sync_keeps_succeeded k j p r attempts commits c i sends has_redis cursor_id now clock
      event_id =
    task_keeps_succeeded k j (build_for_task p r attempts c i)
      (Keeps-build_for_task p r attempts c i k j commits) sends has_redis cursor_id now clock c i
      event_id
