-- ===== src/Persistence/Connections.antt =====
-- The parts of infrastructure/persistence/repository_connection_repository.py that the webhooks, the
-- rotation of secrets and the sync runs use. No modelled operation writes a key of the table, so a
-- flush of it raises nothing.
use tci.Prelude.{
  Bool, not, ◌&&◌, Option, none, some, String, find?, if◌then◌else◌, ◌==◌, nat_eq, is_some,
}
use tci.Models.Enums.Types.{
  RepositoryConnectionStatus, WebhookHealthState, WebhookRejectionReason, DefaultRefType,
}
use tci.Models.Rows.{Uuid, Instant, RepositoryConnection, WebhookSecretRevision}
use tci.Session.{Session, ok, raise, require, ◌>>=◌, ◌>>◌, lookup_error}
use tci.Persistence.Table.{update_where}

abbrev pub is_connection : Uuid → RepositoryConnection → Bool
is_connection connection_id r = r.id == connection_id

abbrev pub is_owned : Uuid → Uuid → RepositoryConnection → Bool
is_owned workspace_id connection_id r = r.id == connection_id && r.workspace_id == workspace_id

unfoldable pub get_any : Uuid → Session (Option RepositoryConnection)
get_any connection_id db = (ok (find? (is_connection connection_id) db.connections), db)

-- `get`, and `get_for_update`, which locks the row besides.
unfoldable pub get_owned : Uuid → Uuid → Session (Option RepositoryConnection)
get_owned workspace_id connection_id db =
    (ok (find? (is_owned workspace_id connection_id) db.connections), db)

-- `_require_any`
unfoldable pub require_any : Uuid → Session RepositoryConnection
unfolding get_any
require_any connection_id = do found ← get_any connection_id; require lookup_error found

-- `_require`
unfoldable pub require_owned : Uuid → Uuid → Session RepositoryConnection
unfolding get_owned
require_owned workspace_id connection_id = do
  found ← get_owned workspace_id connection_id
  require lookup_error found

unfoldable pub write_connections :
    (RepositoryConnection → Bool) → (RepositoryConnection → RepositoryConnection) → Session Unit
write_connections hit change db =
    (ok tt, record db { connections = update_where hit change db.connections })

unfoldable pub set_connection :
    Uuid → (RepositoryConnection → RepositoryConnection) → Session RepositoryConnection
unfolding require_any write_connections
set_connection connection_id change = do
  require_any connection_id
  write_connections (is_connection connection_id) change
  require_any connection_id

unfoldable pub set_owned :
    Uuid → Uuid → (RepositoryConnection → RepositoryConnection) → Session RepositoryConnection
unfolding require_owned write_connections
set_owned workspace_id connection_id change = do
  require_owned workspace_id connection_id
  write_connections (is_owned workspace_id connection_id) change
  require_owned workspace_id connection_id

unfoldable pub record_webhook_rejection :
    Uuid → WebhookHealthState → WebhookRejectionReason → Instant → Session RepositoryConnection
unfolding set_connection
record_webhook_rejection connection_id health_state rejection_reason rejected_at =
    set_connection connection_id (λ r. record r {
      webhook_health_state = health_state;
      last_webhook_rejection_reason = some rejection_reason;
      last_webhook_rejected_at = some rejected_at;
    })

abbrev clear_rejection : WebhookHealthState → RepositoryConnection → RepositoryConnection
clear_rejection WebhookHealthState.healthy r = record r {
  last_webhook_rejection_reason = none;
  last_webhook_rejected_at = none;
}
clear_rejection _ r = r

abbrev pub after_event : Uuid → Instant → RepositoryConnection → RepositoryConnection
after_event event_id processed_at r = record r {
  last_processed_event_id = some event_id;
  last_processed_event_at = some processed_at;
}

unfoldable pub record_processed_event :
    Uuid → Uuid → Instant → WebhookHealthState → Session RepositoryConnection
unfolding set_connection
record_processed_event connection_id event_id processed_at health_state =
    set_connection connection_id (λ r.
      clear_rejection health_state
        (record (after_event event_id processed_at r) { webhook_health_state = health_state }))

unfoldable pub record_processed_event_preserving_webhook_health :
    Uuid → Uuid → Instant → Session RepositoryConnection
unfolding set_connection
record_processed_event_preserving_webhook_health connection_id event_id processed_at =
    set_connection connection_id (after_event event_id processed_at)

unfoldable pub record_webhook_delivery_failure :
    Uuid → Uuid → Instant → Session RepositoryConnection
unfolding set_connection
record_webhook_delivery_failure connection_id event_id failed_at =
    set_connection connection_id (after_event event_id failed_at)

abbrev owns_revision : Uuid → Uuid → WebhookSecretRevision → Bool
owns_revision connection_id revision_id s = s.id == revision_id && s.connection_id == connection_id

unfoldable pub find_revision : Uuid → Uuid → Session Bool
find_revision connection_id revision_id db =
    (ok (is_some (find? (owns_revision connection_id revision_id) db.secrets)), db)

unfoldable pub set_active_webhook_secret_revision :
    Uuid → Uuid → Uuid → Session RepositoryConnection
unfolding require_owned find_revision write_connections
set_active_webhook_secret_revision workspace_id connection_id revision_id = do
  require_owned workspace_id connection_id
  owned ← find_revision connection_id revision_id
  if not owned then raise lookup_error else do
    write_connections (is_owned workspace_id connection_id) (λ r. record r {
      active_webhook_secret_revision_id = some revision_id;
      webhook_health_state = WebhookHealthState.healthy;
      last_webhook_rejection_reason = none;
      last_webhook_rejected_at = none;
    })
    require_owned workspace_id connection_id

unfoldable pub update_default_ref :
    Uuid
    → Uuid
    → DefaultRefType
    → String
    → RepositoryConnectionStatus
    → Instant
    → Session RepositoryConnection
unfolding set_owned
update_default_ref workspace_id connection_id ref_type ref_name status last_verified_at =
    set_owned workspace_id connection_id (λ r. record r {
      default_ref_type = ref_type;
      default_ref_name = ref_name;
      status = status;
      last_verified_at = some last_verified_at;
    })

unfoldable pub update_verification :
    Uuid → Uuid → RepositoryConnectionStatus → Instant → Session RepositoryConnection
unfolding set_owned
update_verification workspace_id connection_id status last_verified_at =
    set_owned workspace_id connection_id
      (λ r. record r { status = status; last_verified_at = some last_verified_at })

abbrev status_or :
    Option RepositoryConnectionStatus → RepositoryConnectionStatus → RepositoryConnectionStatus
status_or none old = old
status_or (some status) old = status

unfoldable pub record_sync_failure :
    Uuid → Uuid → Instant → Option RepositoryConnectionStatus → Session RepositoryConnection
unfolding set_owned
record_sync_failure workspace_id connection_id failed_at status =
    set_owned workspace_id connection_id
      (λ r. record r { last_failed_sync_at = some failed_at; status = status_or status r.status })

unfoldable pub record_snapshot_success : Uuid → Uuid → Instant → Session RepositoryConnection
unfolding set_owned
record_snapshot_success workspace_id connection_id succeeded_at =
    set_owned workspace_id connection_id
      (λ r. record r { last_successful_snapshot_at = some succeeded_at })
