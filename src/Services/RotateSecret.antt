-- ===== src/Services/RotateSecret.antt =====
-- domain/services/rotate_webhook_secret.py. Fernet's encryption is a parameter; the id and the time of
-- the rotation are arguments.
use tci.Prelude.{ℕ, ◌+◌, Option, none, some, String, is_some, if◌then◌else◌}
use tci.Models.Enums.Types.{WebhookSecretRevisionStatus}
use tci.Models.Rows.{Uuid, Instant, WebhookSecretRevision}
use tci.Session.{Session, pure, require, session_scope, ◌>>=◌, ◌>>◌, lookup_error}
use tci.Persistence.Connections.{get_owned, set_active_webhook_secret_revision}
use tci.Persistence.Secrets.{
  create_secret, get_active_for_connection, mark_previous_grace,
  revoke_previous_grace_for_connection,
}

-- WEBHOOK_SECRET_GRACE_PERIOD, in microseconds.
abbrev pub webhook_secret_grace_period : ℕ
webhook_secret_grace_period = 86400000000

pub record RotateWebhookSecretCommand : Type 0 where
  pub workspace_id : Uuid
  pub connection_id : Uuid
  pub plaintext_secret : String
  pub rotated_at : Instant

pub record RotateWebhookSecretResult : Type 0 where
  pub webhook_secret_revision_id : Uuid
  pub grace_until : Option Instant

module _ (encrypt : String → String) (uuid : Uuid) (command : RotateWebhookSecretCommand) where
  abbrev pub grace_until : Instant
  grace_until = command.rotated_at + webhook_secret_grace_period

  abbrev pub rotated_revision : WebhookSecretRevision
  rotated_revision = record {
    id = uuid;
    connection_id = command.connection_id;
    encrypted_secret = encrypt command.plaintext_secret;
    status = WebhookSecretRevisionStatus.active;
    grace_until = none;
    created_at = command.rotated_at;
  }

  abbrev pub retire : Option WebhookSecretRevision → Session Unit
  retire none = pure tt
  retire (some active) = do mark_previous_grace active.id grace_until; pure tt

  abbrev pub replace_secret : Session (Option WebhookSecretRevision)
  replace_secret = do
    revoke_previous_grace_for_connection command.connection_id
    active ← get_active_for_connection command.connection_id
    retire active
    create_secret rotated_revision
    pure active

  -- `rotate_webhook_secret`, with a session factory.
  unfoldable pub rotate_webhook_secret : Session RotateWebhookSecretResult
  unfolding get_owned revoke_previous_grace_for_connection get_active_for_connection
      mark_previous_grace create_secret set_active_webhook_secret_revision session_scope
  rotate_webhook_secret = session_scope do
    found ← get_owned command.workspace_id command.connection_id
    require lookup_error found
    active ← replace_secret
    set_active_webhook_secret_revision command.workspace_id command.connection_id uuid
    pure record {
      webhook_secret_revision_id = uuid;
      grace_until = if is_some active then some grace_until else none;
    }
