-- ===== src/Persistence/Secrets.antt =====
-- infrastructure/persistence/webhook_secret_repository.py and the constraints of its table. The id
-- that the column's default draws is an argument, as is the time that it takes.
use tci.Prelude.{
  Bool, false, not, ◌&&◌, ◌||◌, Option, none, some, List, ◌∷◌, find?, filter, any, all, order_by,
  limit_one, if◌then◌else◌, ltb, leb, ◌==◌, nat_eq, is_some,
}
use tci.Models.Enums.Types.{WebhookSecretRevisionStatus}
use tci.Models.Enums.Equality.{secret_status_eq}
use tci.Models.Rows.{Uuid, Instant, WebhookSecretRevision}
use tci.Session.{Session, ok, err, pure, require, ◌>>◌, lookup_error, integrity_error}
use tci.Persistence.Table.{update_where, no_clash}

-- The primary key, and the partial unique index on the active revision of a connection.
unfoldable pub secret_clash : WebhookSecretRevision → WebhookSecretRevision → Bool
secret_clash a b =
    a.id == b.id
    || (a.connection_id == b.connection_id
        && (a.status == WebhookSecretRevisionStatus.active
            && b.status == WebhookSecretRevisionStatus.active))

-- The check constraint.
abbrev pub has_grace : WebhookSecretRevision → Bool
has_grace r = not (r.status == WebhookSecretRevisionStatus.previous_grace) || is_some r.grace_until

unfoldable pub flush_secrets : List WebhookSecretRevision → Session Unit
flush_secrets rows db =
    if no_clash secret_clash rows && all has_grace rows
    then (ok tt, record db { secrets = rows })
    else (err integrity_error, db)

unfoldable pub create_secret : WebhookSecretRevision → Session WebhookSecretRevision
unfolding flush_secrets
create_secret revision db = (do flush_secrets (revision ∷ db.secrets); pure revision) db

abbrev pub has_status : Uuid → WebhookSecretRevisionStatus → WebhookSecretRevision → Bool
has_status connection_id status r = r.connection_id == connection_id && r.status == status

unfoldable pub get_active_for_connection : Uuid → Session (Option WebhookSecretRevision)
get_active_for_connection connection_id db =
    (ok (find? (has_status connection_id WebhookSecretRevisionStatus.active) db.secrets), db)

-- `grace_until >= as_of`, which is not true of NULL.
abbrev pub still_in_grace : Instant → Option Instant → Bool
still_in_grace as_of none = false
still_in_grace as_of (some until) = leb as_of until

abbrev pub is_candidate : Uuid → Instant → WebhookSecretRevision → Bool
is_candidate connection_id as_of r =
    r.connection_id == connection_id
    && (r.status == WebhookSecretRevisionStatus.active
        || (r.status == WebhookSecretRevisionStatus.previous_grace
            && still_in_grace as_of r.grace_until))

-- ORDER BY created_at DESC, id DESC
abbrev pub newest_secret_first : WebhookSecretRevision → WebhookSecretRevision → Bool
newest_secret_first a b =
    ltb b.created_at a.created_at || (a.created_at == b.created_at && ltb b.id a.id)

-- A candidate has the fields of its row that the verifiers read.
unfoldable pub list_verification_candidates : Uuid → Instant → Session (List WebhookSecretRevision)
list_verification_candidates connection_id as_of db =
    (ok (order_by newest_secret_first (filter (is_candidate connection_id as_of) db.secrets)), db)

unfoldable pub get_latest_previous_grace_for_connection :
    Uuid → Session (Option WebhookSecretRevision)
get_latest_previous_grace_for_connection connection_id db = (
  ok (
      limit_one newest_secret_first
        (filter (has_status connection_id WebhookSecretRevisionStatus.previous_grace) db.secrets)),
  db,
)

abbrev pub is_secret : Uuid → WebhookSecretRevision → Bool
is_secret revision_id r = r.id == revision_id

-- `_require`
unfoldable pub require_secret : Uuid → Session WebhookSecretRevision
require_secret revision_id db = require lookup_error (find? (is_secret revision_id) db.secrets) db

unfoldable pub mark_previous_grace : Uuid → Instant → Session WebhookSecretRevision
unfolding require_secret flush_secrets
mark_previous_grace revision_id grace_until = do
  require_secret revision_id
  λ db.
      flush_secrets
        (update_where (is_secret revision_id)
          (λ r. record r {
            status = WebhookSecretRevisionStatus.previous_grace;
            grace_until = some grace_until;
          })
          db.secrets)
        db
  require_secret revision_id

-- The rows that it returns are not used by any caller.
unfoldable pub revoke_previous_grace_for_connection : Uuid → Session Unit
unfolding flush_secrets
revoke_previous_grace_for_connection connection_id db =
    if any (has_status connection_id WebhookSecretRevisionStatus.previous_grace) db.secrets
    then flush_secrets
        (update_where (has_status connection_id WebhookSecretRevisionStatus.previous_grace)
          (λ r. record r { status = WebhookSecretRevisionStatus.revoked; grace_until = none })
          db.secrets)
        db
    else (ok tt, db)
