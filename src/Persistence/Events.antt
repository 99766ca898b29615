-- ===== src/Persistence/Events.antt =====
-- infrastructure/persistence/repository_event_repository.py and the constraints of its table.
use tci.Prelude.{
  Bool, ◌&&◌, ◌||◌, Option, none, some, List, ◌∷◌, String, find?, if◌then◌else◌, ◌==◌, nat_eq,
  string_eq,
}
use tci.Models.Enums.Types.{
  ProviderEventIdempotencySource, ProcessingDecision, EventProcessingStatus,
}
use tci.Models.Enums.Equality.{idempotency_source_eq}
use tci.Models.Rows.{Uuid, Instant, RepositoryEvent}
use tci.Session.{Session, ok, err, pure, require, ◌>>=◌, ◌>>◌, lookup_error, integrity_error}
use tci.Persistence.Table.{update_where, no_clash}

-- The columns that `get_by_delivery_id` asks for, which the unique constraint is on.
abbrev pub is_delivery : Uuid → String → ProviderEventIdempotencySource → RepositoryEvent → Bool
is_delivery connection_id delivery_id source e =
    e.connection_id == connection_id
    && e.provider_delivery_id == delivery_id
    && e.provider_event_idempotency_source == source

-- The primary key and the unique constraint.
unfoldable pub event_clash : RepositoryEvent → RepositoryEvent → Bool
event_clash a b =
    a.id == b.id
    || is_delivery a.connection_id a.provider_delivery_id a.provider_event_idempotency_source b

unfoldable pub flush_events : List RepositoryEvent → Session Unit
flush_events rows db =
    if no_clash event_clash rows
    then (ok tt, record db { events = rows })
    else (err integrity_error, db)

-- The draft of an event has the fields of its row.
unfoldable pub create_event : RepositoryEvent → Session RepositoryEvent
unfolding flush_events
create_event draft db = (do flush_events (draft ∷ db.events); pure draft) db

unfoldable pub get_by_delivery_id :
    Uuid → String → ProviderEventIdempotencySource → Session (Option RepositoryEvent)
get_by_delivery_id connection_id delivery_id source db =
    (ok (find? (is_delivery connection_id delivery_id source) db.events), db)

abbrev pub is_event : Uuid → RepositoryEvent → Bool
is_event event_id e = e.id == event_id

unfoldable pub get_event : Uuid → Session (Option RepositoryEvent)
get_event event_id db = (ok (find? (is_event event_id) db.events), db)

-- `_require`
unfoldable pub require_event : Uuid → Session RepositoryEvent
unfolding get_event
require_event event_id = do found ← get_event event_id; require lookup_error found

unfoldable pub set_event : Uuid → (RepositoryEvent → RepositoryEvent) → Session Unit
unfolding flush_events
set_event event_id change db = flush_events (update_where (is_event event_id) change db.events) db

-- `x` where it is given, and the old value where it is None.
abbrev pub or_keep : {A : Type 0} → Option A → Option A → Option A
or_keep none old = old
or_keep (some a) old = some a

abbrev pub processed :
    ProcessingDecision
    → EventProcessingStatus
    → Instant
    → Option Uuid
    → Option Uuid
    → Bool
    → RepositoryEvent
    → RepositoryEvent
processed decision status at sync_run_id snapshot_id clear_sync_run_id e = record e {
  processing_decision = decision;
  processing_status = status;
  processed_at = some at;
  sync_run_id = or_keep sync_run_id (if clear_sync_run_id then none else e.sync_run_id);
  snapshot_id = or_keep snapshot_id e.snapshot_id;
}

unfoldable pub update_processing :
    Uuid
    → ProcessingDecision
    → EventProcessingStatus
    → Instant
    → Option Uuid
    → Option Uuid
    → Bool
    → Session RepositoryEvent
unfolding require_event set_event
update_processing event_id decision status at sync_run_id snapshot_id clear_sync_run_id = do
  require_event event_id
  set_event event_id (processed decision status at sync_run_id snapshot_id clear_sync_run_id)
  require_event event_id
