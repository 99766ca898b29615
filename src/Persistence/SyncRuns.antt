-- ===== src/Persistence/SyncRuns.antt =====
-- infrastructure/persistence/repository_sync_run_repository.py and the constraints of its table.
-- `func.now()` of the database server is the argument `server_now`.
pub mod Operations
pub mod Constraints
pub mod Claim
pub mod Release
pub mod Succeeded
pub mod Lifecycle
use tci.Prelude.{
  ◌≡◌, Bool, true, false, not, ◌&&◌, ◌||◌, Option, none, some, List, [], ◌∷◌, String, any, filter,
  find?, limit_one, if◌then◌else◌, ltb, leb, ◌==◌, nat_eq, string_eq, option_eq,
}
use tci.Models.Enums.Types.{RefType, SyncRunStatus, SyncTriggerType, SyncFailureCode}
use tci.Models.Enums.Equality.{ref_type_eq, sync_run_status_eq}
use tci.Models.Rows.{Uuid, Instant, RepositorySyncRun}
use tci.Session.{
  Session, Database, ok, err, pure, raise, require, ◌>>=◌, ◌>>◌, lookup_error, value_error,
  integrity_error,
}
use tci.Persistence.Table.{update_where, no_clash}

pub record RepositorySyncRunDraft : Type 0 where
  pub id : Uuid
  pub connection_id : Uuid
  pub trigger_event_id : Option Uuid
  pub trigger_type : SyncTriggerType
  pub requested_ref_type : RefType
  pub requested_ref_name : String
  pub requested_ref_key : Option String

-- Python's `key or name`: the empty text counts as false.
abbrev pub key_or_name : Option String → String → String
key_or_name none name = name
key_or_name (some key) name = if key == "" then name else key

abbrev pub is_active : SyncRunStatus → Bool
is_active SyncRunStatus.pending = true
is_active SyncRunStatus.running = true
is_active _ = false

abbrev pub same_ref : RepositorySyncRun → RepositorySyncRun → Bool
same_ref a b =
    a.connection_id == b.connection_id
    && a.requested_ref_type == b.requested_ref_type
    && a.requested_ref_key == b.requested_ref_key

-- The primary key and the two partial unique indexes.
unfoldable pub clash : RepositorySyncRun → RepositorySyncRun → Bool
clash a b =
    a.id == b.id
    || (same_ref a b
        && ((is_active a.status && is_active b.status)
            || (a.status == SyncRunStatus.blocked && b.status == SyncRunStatus.blocked)))

-- `flush` of the table: the constraints are checked, and the rows are written if they hold.
unfoldable pub flush_sync_runs : List RepositorySyncRun → Session Unit
flush_sync_runs rows db =
    if no_clash clash rows
    then (ok tt, record db { sync_runs = rows })
    else (err integrity_error, db)

abbrev pub is_row : Uuid → Uuid → RepositorySyncRun → Bool
is_row connection_id sync_run_id r = r.connection_id == connection_id && r.id == sync_run_id

unfoldable pub get : Uuid → Uuid → Session (Option RepositorySyncRun)
get connection_id sync_run_id db = (ok (find? (is_row connection_id sync_run_id) db.sync_runs), db)

-- `_require`
unfoldable pub require_run : Uuid → Uuid → Session RepositorySyncRun
unfolding get
require_run connection_id sync_run_id = do
  found ← get connection_id sync_run_id
  require lookup_error found

-- Attributes set on a row and flushed.
unfoldable pub set_row : Uuid → Uuid → (RepositorySyncRun → RepositorySyncRun) → Session Unit
unfolding flush_sync_runs
set_row connection_id sync_run_id change db =
    flush_sync_runs (update_where (is_row connection_id sync_run_id) change db.sync_runs) db

-- UPDATE ... WHERE hit RETURNING id: whether a row was hit.
unfoldable pub update_returning :
    (RepositorySyncRun → Bool) → (RepositorySyncRun → RepositorySyncRun) → Session Bool
unfolding flush_sync_runs
update_returning hit change db =
    if any hit db.sync_runs
    then (do flush_sync_runs (update_where hit change db.sync_runs); pure true) db
    else (ok false, db)

abbrev pub new_run : SyncRunStatus → Instant → RepositorySyncRunDraft → RepositorySyncRun
new_run status server_now draft = record {
  id = draft.id;
  connection_id = draft.connection_id;
  trigger_event_id = draft.trigger_event_id;
  trigger_type = draft.trigger_type;
  requested_ref_type = draft.requested_ref_type;
  requested_ref_name = draft.requested_ref_name;
  requested_ref_key = key_or_name draft.requested_ref_key draft.requested_ref_name;
  resolved_commit_sha = none;
  status = status;
  failure_code = none;
  failure_message = none;
  started_at = server_now;
  dispatch_enqueued_at = none;
  completed_at = none;
}

unfoldable pub create : SyncRunStatus → Instant → RepositorySyncRunDraft → Session RepositorySyncRun
unfolding flush_sync_runs
create status server_now draft db =
    (do
      flush_sync_runs (new_run status server_now draft ∷ db.sync_runs)
      pure (new_run status server_now draft))
      db

unfoldable pub create_pending : Instant → RepositorySyncRunDraft → Session RepositorySyncRun
unfolding create
create_pending = create SyncRunStatus.pending

unfoldable pub create_blocked : Instant → RepositorySyncRunDraft → Session RepositorySyncRun
unfolding create
create_blocked = create SyncRunStatus.blocked

-- ORDER BY started_at DESC, id DESC
abbrev pub newest_first : RepositorySyncRun → RepositorySyncRun → Bool
newest_first a b = ltb b.started_at a.started_at || (a.started_at == b.started_at && ltb b.id a.id)

-- ORDER BY started_at ASC, id ASC
abbrev pub oldest_first : RepositorySyncRun → RepositorySyncRun → Bool
oldest_first a b = newest_first b a

-- The rows of a ref in a status.
abbrev pub of_ref : Uuid → RefType → String → SyncRunStatus → RepositorySyncRun → Bool
of_ref connection_id ref_type key status r =
    r.connection_id == connection_id
    && r.requested_ref_type == ref_type
    && r.requested_ref_key == key
    && r.status == status

module _ (connection_id : Uuid) where
  unfoldable pub get_active_for_requested_ref :
      RefType → String → Option String → Session (Option RepositorySyncRun)
  get_active_for_requested_ref ref_type name key db = (
    ok (
        limit_one newest_first (
          filter (of_ref connection_id ref_type (key_or_name key name) SyncRunStatus.pending)
            db.sync_runs)),
    db,
  )

  unfoldable pub get_running_for_requested_ref :
      RefType → String → Option String → Session (Option RepositorySyncRun)
  get_running_for_requested_ref ref_type name key db = (
    ok (
        limit_one newest_first (
          filter (of_ref connection_id ref_type (key_or_name key name) SyncRunStatus.running)
            db.sync_runs)),
    db,
  )

  unfoldable pub get_blocked_for_requested_ref :
      RefType → String → Option String → Session (Option RepositorySyncRun)
  get_blocked_for_requested_ref ref_type name key db = (
    ok (
        limit_one oldest_first (
          filter (of_ref connection_id ref_type (key_or_name key name) SyncRunStatus.blocked)
            db.sync_runs)),
    db,
  )

  unfoldable pub get_active_for_trigger_event : Uuid → Session (Option RepositorySyncRun)
  get_active_for_trigger_event trigger_event_id db = (
    ok (
        limit_one newest_first (
          filter
            (λ r.
              r.connection_id == connection_id
              && r.trigger_event_id == some trigger_event_id
              && is_active r.status)
            db.sync_runs)),
    db,
  )

  unfoldable pub get_latest_for_connection : Session (Option RepositorySyncRun)
  get_latest_for_connection db = (
    ok (limit_one newest_first (filter (λ r. r.connection_id == connection_id) db.sync_runs)),
    db,
  )
