-- ===== src/Persistence/Snapshots.antt =====
-- infrastructure/persistence/code_snapshot_repository.py and the unique constraints of its tables. The
-- time that the column's default takes comes with the draft, as do the files.
use tci.Prelude.{
  Bool, ◌&&◌, ◌||◌, Option, ◌∷◌, find?, filter, limit_one, ltb, if◌then◌else◌, ◌==◌, nat_eq,
  string_eq,
}
use tci.Models.Rows.{Uuid, CodeSnapshot, CodeSnapshotFile}
use tci.Session.{Session, ok, err, integrity_error}
use tci.Persistence.Table.{no_clash}

-- The primary key, and `uq_code_snapshot_sync_run_id`.
unfoldable pub snapshot_clash : CodeSnapshot → CodeSnapshot → Bool
snapshot_clash a b = a.id == b.id || a.sync_run_id == b.sync_run_id

-- The unique path of a file in its snapshot.
unfoldable pub file_clash : CodeSnapshotFile → CodeSnapshotFile → Bool
file_clash a b = a.path == b.path

unfoldable pub create_snapshot : CodeSnapshot → Session CodeSnapshot
create_snapshot draft db =
    if no_clash snapshot_clash (draft ∷ db.snapshots) && no_clash file_clash draft.files
    then (ok draft, record db { snapshots = draft ∷ db.snapshots })
    else (err integrity_error, db)

abbrev pub is_snapshot : Uuid → Uuid → CodeSnapshot → Bool
is_snapshot connection_id snapshot_id s = s.connection_id == connection_id && s.id == snapshot_id

unfoldable pub get_snapshot : Uuid → Uuid → Session (Option CodeSnapshot)
get_snapshot connection_id snapshot_id db =
    (ok (find? (is_snapshot connection_id snapshot_id) db.snapshots), db)

-- ORDER BY created_at DESC, id DESC
abbrev pub newest_snapshot_first : CodeSnapshot → CodeSnapshot → Bool
newest_snapshot_first a b =
    ltb b.created_at a.created_at || (a.created_at == b.created_at && ltb b.id a.id)

unfoldable pub get_latest_for_connection : Uuid → Session (Option CodeSnapshot)
get_latest_for_connection connection_id db = (
  ok (
      limit_one newest_snapshot_first
        (filter (λ s. s.connection_id == connection_id) db.snapshots)),
  db,
)

abbrev pub is_of_run : Uuid → CodeSnapshot → Bool
is_of_run sync_run_id s = s.sync_run_id == sync_run_id

unfoldable pub get_by_sync_run_id : Uuid → Session (Option CodeSnapshot)
get_by_sync_run_id sync_run_id db = (ok (find? (is_of_run sync_run_id) db.snapshots), db)
