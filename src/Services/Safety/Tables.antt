-- ===== src/Services/Safety/Tables.antt =====
-- The operations on the other tables, with respect to the sync runs.
use tci.Prelude.{Bool, true, false, Option, none, some, List, ◌∷◌, String, Bool-cases, inl, inr}
use tci.Models.Enums.Types.{
  ProcessingDecision, EventProcessingStatus, ProviderEventIdempotencySource,
}
use tci.Models.Rows.{
  Uuid, Instant, RepositorySyncRun, RepositoryEvent, RepositoryEventCursor, RepositoryConnection,
}
use tci.Session.{
  Session, Error, pure, require, begin_nested, ◌>>=◌, integrity_error, lookup_error, runtime_error,
  value_error, type_error, git_auth_error, git_ref_not_found_error, scope_changed_error, problem,
  catch,
}
use tci.Session.Rules.{Preserves-bind, Preserves-catch, Preserves-nested}
use tci.Persistence.Table.{no_clash}
use tci.Persistence.Events.{
  event_clash, flush_events, create_event, get_by_delivery_id, get_event, require_event, set_event,
  update_processing,
}
use tci.Persistence.Cursors.{cursor_clash, flush_cursors, get_cursor, write_cursor, upsert}
use tci.Persistence.Connections.{
  get_any, get_owned, require_any, require_owned, write_connections, set_connection, set_owned,
}
use tci.Services.Delivery.{on_integrity_error, create_event_or_get_concurrent_delivery}
use tci.Services.Safety.{Safe}

module _ (J : List RepositorySyncRun → Type 0) where
  pub Safe-bind :
      {A B : Type 0} (m : Session A) (f : A → Session B)
      → Safe J m
      → ((a : A) → Safe J (f a))
      → Safe J (m >>= f)
  Safe-bind m f = Preserves-bind (λ db. J db.sync_runs) m f

  pub Safe-require : {A : Type 0} (e : Error) (o : Option A) → Safe J (require e o)
  Safe-require e none db h = h
  Safe-require e (some a) db h = h

  pub Safe-flush_events : (rows : List RepositoryEvent) → Safe J (flush_events rows)
  unfolding flush_events
  Safe-flush_events rows db h = elim (Bool-cases (no_clash event_clash rows)) [
    | inl fine ↦ rw fine h
    | inr broken ↦ rw broken h
  ]

  Safe-flush_cursors : (rows : List RepositoryEventCursor) → Safe J (flush_cursors rows)
  unfolding flush_cursors
  Safe-flush_cursors rows db h = elim (Bool-cases (no_clash cursor_clash rows)) [
    | inl fine ↦ rw fine h
    | inr broken ↦ rw broken h
  ]

  Safe-create_event : (draft : RepositoryEvent) → Safe J (create_event draft)
  unfolding create_event
  Safe-create_event draft db =
      Safe-bind (flush_events (draft ∷ db.events)) (λ _. pure draft)
        (Safe-flush_events (draft ∷ db.events)) (λ _ db' h. h) db

  pub Safe-get_by_delivery_id :
      (c : Uuid) (delivery_id : String) (source : ProviderEventIdempotencySource)
      → Safe J (get_by_delivery_id c delivery_id source)
  unfolding get_by_delivery_id
  Safe-get_by_delivery_id c delivery_id source db h = h

  pub Safe-get_event : (i : Uuid) → Safe J (get_event i)
  unfolding get_event
  Safe-get_event i db h = h

  Safe-require_event : (i : Uuid) → Safe J (require_event i)
  unfolding require_event
  Safe-require_event i =
      Safe-bind (get_event i) (require lookup_error) (Safe-get_event i) (Safe-require lookup_error)

  pub Safe-set_event :
      (i : Uuid) (change : RepositoryEvent → RepositoryEvent) → Safe J (set_event i change)
  unfolding set_event
  Safe-set_event i change db = Safe-flush_events _ db

  pub Safe-update_processing :
      (i : Uuid) (d : ProcessingDecision) (s : EventProcessingStatus) (at : Instant)
      (run snapshot : Option Uuid) (clear : Bool)
      → Safe J (update_processing i d s at run snapshot clear)
  unfolding update_processing
  Safe-update_processing i d s at run snapshot clear =
      Safe-bind (require_event i) _ (Safe-require_event i)
        λ e. Safe-bind (set_event i _) _ (Safe-set_event i _) (λ _. Safe-require_event i)

  pub Safe-get_cursor : (c : Uuid) (key : String) → Safe J (get_cursor c key)
  unfolding get_cursor
  Safe-get_cursor c key db h = h

  Safe-write_cursor :
      (draft : RepositoryEventCursor) (o : Option RepositoryEventCursor)
      → Safe J (write_cursor draft o)
  Safe-write_cursor draft none db =
      Safe-bind (flush_cursors (draft ∷ db.cursors)) (λ _. pure draft)
        (Safe-flush_cursors (draft ∷ db.cursors)) (λ _ db' h. h) db
  Safe-write_cursor draft (some r) db =
      Safe-bind (flush_cursors _) _ (Safe-flush_cursors _) (λ _ db' h. h) db

  pub Safe-upsert : (draft : RepositoryEventCursor) → Safe J (upsert draft)
  unfolding upsert
  Safe-upsert draft =
      Safe-bind (get_cursor draft.connection_id draft.target_key) (write_cursor draft)
        (Safe-get_cursor draft.connection_id draft.target_key) (Safe-write_cursor draft)

  Safe-require_any : (c : Uuid) → Safe J (require_any c)
  unfolding require_any get_any
  Safe-require_any c =
      Safe-bind (get_any c) (require lookup_error) (λ db h. h) (Safe-require lookup_error)

  pub Safe-set_connection :
      (c : Uuid) (change : RepositoryConnection → RepositoryConnection)
      → Safe J (set_connection c change)
  unfolding set_connection write_connections
  Safe-set_connection c change = Safe-bind (require_any c) _ (Safe-require_any c) λ r.
      Safe-bind (write_connections _ change) (λ _. require_any c) (λ db h. h)
        (λ _. Safe-require_any c)

  Safe-require_owned : (w c : Uuid) → Safe J (require_owned w c)
  unfolding require_owned get_owned
  Safe-require_owned w c =
      Safe-bind (get_owned w c) (require lookup_error) (λ db h. h) (Safe-require lookup_error)

  pub Safe-set_owned :
      (w c : Uuid) (change : RepositoryConnection → RepositoryConnection)
      → Safe J (set_owned w c change)
  unfolding set_owned write_connections
  Safe-set_owned w c change = Safe-bind (require_owned w c) _ (Safe-require_owned w c) λ r.
      Safe-bind (write_connections _ change) (λ _. require_owned w c) (λ db h. h)
        (λ _. Safe-require_owned w c)

  pub Safe-on_integrity_error :
      {A : Type 0} (m : Session A) (e : Error) → Safe J m → Safe J (on_integrity_error m e)
  Safe-on_integrity_error m integrity_error h = h
  Safe-on_integrity_error m lookup_error h = λ db k. k
  Safe-on_integrity_error m runtime_error h = λ db k. k
  Safe-on_integrity_error m value_error h = λ db k. k
  Safe-on_integrity_error m type_error h = λ db k. k
  Safe-on_integrity_error m git_auth_error h = λ db k. k
  Safe-on_integrity_error m git_ref_not_found_error h = λ db k. k
  Safe-on_integrity_error m scope_changed_error h = λ db k. k
  Safe-on_integrity_error m (problem code) h = λ db k. k

  -- A creation in a savepoint with a handler for a broken constraint.
  pub Safe-attempt :
      {A : Type 0} (m handler : Session A)
      → Safe J m
      → Safe J handler
      → Safe J (catch (begin_nested m) (on_integrity_error handler))
  Safe-attempt m handler hm hh =
      Preserves-catch (λ db. J db.sync_runs) (begin_nested m) (on_integrity_error handler)
        (Preserves-nested (λ db. J db.sync_runs) m hm) (λ e. Safe-on_integrity_error handler e hh)

  pub Safe-required :
      {A B : Type 0} (e : Error) (o : Option A) (f : A → Session B)
      → ((a : A) → Safe J (f a))
      → Safe J (require e o >>= f)
  Safe-required e o f h = Safe-bind (require e o) f (Safe-require e o) h

  pub Safe-create_event_or_get :
      (draft : RepositoryEvent) → Safe J (create_event_or_get_concurrent_delivery draft)
  unfolding create_event_or_get_concurrent_delivery
  Safe-create_event_or_get draft =
      Safe-attempt (create_event draft >>= λ e. pure (e, true)) (find >>= λ found. answer found)
        (Safe-bind (create_event draft) (λ e. pure (e, true)) (Safe-create_event draft)
          (λ e db h. h))
        (Safe-bind find answer
          (Safe-get_by_delivery_id draft.connection_id draft.provider_delivery_id
            draft.provider_event_idempotency_source)
          (λ found. Safe-required integrity_error found (λ e. pure (e, false)) (λ e db h. h)))
    where
      find : Session (Option RepositoryEvent)
      find =
          get_by_delivery_id draft.connection_id draft.provider_delivery_id
            draft.provider_event_idempotency_source

      answer : Option RepositoryEvent → Session (RepositoryEvent × Bool)
      answer found = require integrity_error found >>= λ e. pure (e, false)
