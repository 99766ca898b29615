-- ===== src/Queue/RestoreCursor.antt =====
-- `_restore_event_cursor_after_failure`, and the listing of the events of a connection.
pub mod Laws
use tci.Prelude.{
  Bool, true, false, not, ◌&&◌, ◌||◌, Option, none, some, List, String, filter, find?, order_by,
  is_some, ltb, ◌==◌, nat_eq, string_eq,
}
use tci.Models.Enums.Types.{ProcessingDecision, EventProcessingStatus}
use tci.Models.Enums.Equality.{processing_decision_eq, processing_status_eq}
use tci.Models.Rows.{Uuid, Instant, RepositoryEvent, RepositoryEventCursor}
use tci.Session.{Session, ok, pure, ◌>>=◌, ◌>>◌}
use tci.Persistence.Cursors.{upsert, delete_if_latest_event}

-- ORDER BY received_at DESC, id DESC
abbrev pub newest_event_first : RepositoryEvent → RepositoryEvent → Bool
newest_event_first a b =
    ltb b.received_at a.received_at || (a.received_at == b.received_at && ltb b.id a.id)

-- `RepositoryEventRepository.list_for_connection`
unfoldable pub list_events_for_connection : Uuid → Session (List RepositoryEvent)
list_events_for_connection connection_id db = (
  ok (order_by newest_event_first (filter (λ e. e.connection_id == connection_id) db.events)),
  db,
)

-- An event that the cursor may stand at in place of the failed one.
abbrev pub is_fallback : RepositoryEvent → RepositoryEvent → Bool
is_fallback failed e =
    not (e.id == failed.id)
    && e.target_key == failed.target_key
    && is_some e.target_head_sha
    && e.processing_decision == ProcessingDecision.queued
    && not (e.processing_status == EventProcessingStatus.failed)
    && is_some e.sync_run_id

abbrev pub head_text : Option String → String
head_text none = ""
head_text (some sha) = sha

module _ (cursor_id connection_id : Uuid) (failed : RepositoryEvent) (restored_at : Instant) where
  -- A fallback has a head.
  abbrev pub fallback_cursor : RepositoryEvent → RepositoryEventCursor
  fallback_cursor e = record {
    id = cursor_id;
    connection_id = connection_id;
    target_key = e.target_key;
    latest_head_sha = head_text e.target_head_sha;
    latest_event_id = e.id;
    updated_at = restored_at;
  }

  abbrev pub move_cursor : Option RepositoryEvent → Session Unit
  move_cursor none = delete_if_latest_event connection_id failed.target_key failed.id
  move_cursor (some e) = do upsert (fallback_cursor e); pure tt

  unfoldable pub restore_event_cursor : Session Unit
  unfolding list_events_for_connection upsert delete_if_latest_event
  restore_event_cursor = do
    events ← list_events_for_connection connection_id
    move_cursor (find? (is_fallback failed) events)
