-- ===== src/Tests/Cursors.antt =====
-- A cursor that is moved, and one that is deleted.
use tci.Prelude.{◌≡◌, refl, [], ◌∷◌, find?}
use tci.Models.Rows.{RepositoryEventCursor}
use tci.Session.{Database, empty_database, ok}
use tci.Persistence.Table.{no_clash, update_where}
use tci.Persistence.Cursors.{upsert, get_cursor, delete_if_latest_event, is_cursor}
use tci.Persistence.Cursors.Laws.{IsMovedTo, upsert-get, unless_at, delete-get}

abbrev stored : RepositoryEventCursor
stored = record {
  id = 1;
  connection_id = 2;
  target_key = "mr:7";
  latest_head_sha = "decade";
  latest_event_id = 3;
  updated_at = 4;
}

abbrev later : RepositoryEventCursor
later = record stored { id = 5; latest_head_sha = "c0ffee"; latest_event_id = 6; updated_at = 9 }

abbrev moved : RepositoryEventCursor
moved = record later { id = 1 }

abbrev with_cursor : Database
with_cursor = record empty_database { cursors = stored ∷ [] }

moves : (upsert later with_cursor).0 ≡ ok moved
unfolding upsert no_clash update_where
moves = refl

upsert-get_example : IsMovedTo later moved (upsert later with_cursor).1
upsert-get_example = upsert-get later with_cursor moved moves

delete-get_example :
    (get_cursor 2 "mr:7" (delete_if_latest_event 2 "mr:7" 3 with_cursor).1).0
    ≡ ok (unless_at 3 (find? (is_cursor 2 "mr:7") with_cursor.cursors))
delete-get_example = delete-get 2 "mr:7" 3 with_cursor
