-- ===== src/Persistence/SyncRuns/Operations.antt =====
-- The operations of repository_sync_run_repository.py that change a run.
use tci.Prelude.{
  Bool, true, false, not, ◌&&◌, Option, none, some, String, any, filter, if◌then◌else◌, leb, ◌==◌,
  nat_eq, string_eq, List,
}
use tci.Models.Enums.Types.{SyncRunStatus, SyncFailureCode}
use tci.Models.Enums.Equality.{sync_run_status_eq, ref_type_eq}
use tci.Models.Rows.{Uuid, Instant, RepositorySyncRun}
use tci.Session.{Session, pure, raise, ◌>>=◌, ◌>>◌, value_error}
use tci.Persistence.SyncRuns.{
  get, require_run, set_row, flush_sync_runs, update_returning, is_row, is_active,
}

-- What the two ways to move a blocked run reset.
abbrev pub restart : SyncRunStatus → Instant → RepositorySyncRun → RepositorySyncRun
restart status at r = record r {
  status = status;
  started_at = at;
  dispatch_enqueued_at = none;
  completed_at = none;
  failure_code = none;
  failure_message = none;
}

module _ (connection_id sync_run_id : Uuid) where
  unfoldable pub update_blocked_trigger_event : Option Uuid → Instant → Session RepositorySyncRun
  unfolding require_run set_row
  update_blocked_trigger_event trigger_event_id updated_at = do
    sync_run ← require_run connection_id sync_run_id
    if not (sync_run.status == SyncRunStatus.blocked) then raise value_error else do
      set_row connection_id sync_run_id (λ r. record (restart SyncRunStatus.blocked updated_at r) {
        trigger_event_id = trigger_event_id;
      })
      require_run connection_id sync_run_id

  unfoldable pub release_blocked : Instant → Session RepositorySyncRun
  unfolding require_run set_row
  release_blocked released_at = do
    sync_run ← require_run connection_id sync_run_id
    if not (sync_run.status == SyncRunStatus.blocked) then raise value_error else do
      set_row connection_id sync_run_id (restart SyncRunStatus.pending released_at)
      require_run connection_id sync_run_id

  -- The subquery `active_exists`, for the row that the UPDATE looks at.
  abbrev pub is_rival : RepositorySyncRun → RepositorySyncRun → Bool
  is_rival blocked active =
      active.connection_id == connection_id
      && not (active.id == sync_run_id)
      && active.requested_ref_type == blocked.requested_ref_type
      && active.requested_ref_key == blocked.requested_ref_key
      && is_active active.status

  abbrev pub is_releasable : List RepositorySyncRun → RepositorySyncRun → Bool
  is_releasable rows r =
      is_row connection_id sync_run_id r
      && (r.status == SyncRunStatus.blocked && not (any (is_rival r) rows))

  unfoldable pub release_blocked_if_no_active : Instant → Session (Option RepositorySyncRun)
  unfolding get update_returning
  release_blocked_if_no_active released_at = do
    released ← λ db.
        update_returning (is_releasable db.sync_runs) (restart SyncRunStatus.pending released_at) db
    if released then get connection_id sync_run_id else pure none

  unfoldable pub mark_dispatch_enqueued : Instant → Session RepositorySyncRun
  unfolding require_run set_row
  mark_dispatch_enqueued enqueued_at = do
    require_run connection_id sync_run_id
    set_row connection_id sync_run_id (λ r. record r { dispatch_enqueued_at = some enqueued_at })
    require_run connection_id sync_run_id

  unfoldable pub clear_dispatch_enqueued : Session RepositorySyncRun
  unfolding require_run set_row
  clear_dispatch_enqueued = do
    require_run connection_id sync_run_id
    set_row connection_id sync_run_id (λ r. record r { dispatch_enqueued_at = none })
    require_run connection_id sync_run_id

  -- `dispatch_predicate`: unclaimed, or claimed no later than `stale_before`.
  abbrev pub may_claim : Option Instant → Option Instant → Bool
  may_claim stale_before none = true
  may_claim none (some at) = false
  may_claim (some limit) (some at) = leb at limit

  abbrev pub is_claimable : Option Instant → RepositorySyncRun → Bool
  is_claimable stale_before r =
      is_row connection_id sync_run_id r
      && (r.status == SyncRunStatus.pending && may_claim stale_before r.dispatch_enqueued_at)

  unfoldable pub claim_dispatch_enqueued : Instant → Option Instant → Session Bool
  unfolding update_returning
  claim_dispatch_enqueued enqueued_at stale_before =
      update_returning (is_claimable stale_before)
        (λ r. record r { dispatch_enqueued_at = some enqueued_at })

  abbrev pub is_startable : RepositorySyncRun → Bool
  is_startable r = is_row connection_id sync_run_id r && r.status == SyncRunStatus.pending

  unfoldable pub mark_running : Instant → Session RepositorySyncRun
  unfolding require_run update_returning
  mark_running started_at = do
    started ← update_returning is_startable (λ r. record r {
      status = SyncRunStatus.running;
      started_at = started_at;
      failure_code = none;
      failure_message = none;
      completed_at = none;
    })
    if started then require_run connection_id sync_run_id else raise value_error

  unfoldable pub mark_succeeded : String → Instant → Session RepositorySyncRun
  unfolding require_run set_row
  mark_succeeded resolved_commit_sha completed_at = do
    require_run connection_id sync_run_id
    set_row connection_id sync_run_id (λ r. record r {
      status = SyncRunStatus.succeeded;
      resolved_commit_sha = some resolved_commit_sha;
      failure_code = none;
      failure_message = none;
      completed_at = some completed_at;
    })
    require_run connection_id sync_run_id

  unfoldable pub mark_failed : SyncFailureCode → String → Instant → Session RepositorySyncRun
  unfolding require_run set_row
  mark_failed failure_code failure_message completed_at = do
    sync_run ← require_run connection_id sync_run_id
    if sync_run.status == SyncRunStatus.succeeded then pure sync_run else do
      set_row connection_id sync_run_id (λ r. record r {
        status = SyncRunStatus.failed;
        failure_code = some failure_code;
        failure_message = some failure_message;
        completed_at = some completed_at;
      })
      require_run connection_id sync_run_id

  unfoldable pub delete_pending : Session Unit
  unfolding require_run flush_sync_runs
  delete_pending = do
    sync_run ← require_run connection_id sync_run_id
    if not (sync_run.status == SyncRunStatus.pending) then raise value_error else λ db.
        flush_sync_runs (filter (λ r. not (is_row connection_id sync_run_id r)) db.sync_runs) db
