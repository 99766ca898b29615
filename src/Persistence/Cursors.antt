-- ===== src/Persistence/Cursors.antt =====
-- infrastructure/persistence/repository_event_cursor_repository.py. A draft has the fields of the
-- row that it makes.
pub mod Laws
use tci.Prelude.{
  Bool, not, ◌&&◌, ◌||◌, Option, none, some, List, ◌∷◌, String, find?, filter, if◌then◌else◌, ◌==◌,
  nat_eq, string_eq,
}
use tci.Models.Rows.{Uuid, RepositoryEventCursor}
use tci.Session.{Session, ok, err, pure, ◌>>=◌, ◌>>◌, integrity_error}
use tci.Persistence.Table.{update_where, no_clash}

abbrev pub is_cursor : Uuid → String → RepositoryEventCursor → Bool
is_cursor connection_id target_key r =
    r.connection_id == connection_id && r.target_key == target_key

-- The primary key and the unique constraint.
unfoldable pub cursor_clash : RepositoryEventCursor → RepositoryEventCursor → Bool
cursor_clash a b = a.id == b.id || is_cursor b.connection_id b.target_key a

unfoldable pub flush_cursors : List RepositoryEventCursor → Session Unit
flush_cursors rows db =
    if no_clash cursor_clash rows
    then (ok tt, record db { cursors = rows })
    else (err integrity_error, db)

unfoldable pub get_cursor : Uuid → String → Session (Option RepositoryEventCursor)
get_cursor connection_id target_key db =
    (ok (find? (is_cursor connection_id target_key) db.cursors), db)

abbrev pub move_to : RepositoryEventCursor → RepositoryEventCursor → RepositoryEventCursor
move_to draft r = record r {
  latest_head_sha = draft.latest_head_sha;
  latest_event_id = draft.latest_event_id;
  updated_at = draft.updated_at;
}

abbrev pub write_cursor :
    RepositoryEventCursor → Option RepositoryEventCursor → Session RepositoryEventCursor
write_cursor draft none db = (do flush_cursors (draft ∷ db.cursors); pure draft) db
write_cursor draft (some r) db =
    (do
      flush_cursors
          (update_where (is_cursor draft.connection_id draft.target_key) (move_to draft) db.cursors)
      pure (move_to draft r))
      db

unfoldable pub upsert : RepositoryEventCursor → Session RepositoryEventCursor
unfolding get_cursor flush_cursors
upsert draft = do
  cursor ← get_cursor draft.connection_id draft.target_key
  write_cursor draft cursor

abbrev delete_found : Uuid → String → Uuid → Option RepositoryEventCursor → Session Unit
delete_found connection_id target_key event_id none db = (ok tt, db)
delete_found connection_id target_key event_id (some r) db =
    if not (r.latest_event_id == event_id) then (ok tt, db) else (
      ok tt,
      record db { cursors = filter (λ c. not (is_cursor connection_id target_key c)) db.cursors },
    )

unfoldable pub delete_if_latest_event : Uuid → String → Uuid → Session Unit
unfolding get_cursor
delete_if_latest_event connection_id target_key event_id = do
  cursor ← get_cursor connection_id target_key
  delete_found connection_id target_key event_id cursor
