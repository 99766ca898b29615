-- ===== src/Persistence/Credentials.antt =====
-- infrastructure/persistence/credential_revision_repository.py and the constraints of its table. The
-- id that the column's default draws comes with the draft.
use tci.Prelude.{Bool, not, ◌&&◌, ◌||◌, Option, ◌∷◌, find?, if◌then◌else◌, ◌==◌, nat_eq}
use tci.Models.Enums.Types.{CredentialRevisionStatus}
use tci.Models.Enums.Equality.{credential_status_eq}
use tci.Models.Rows.{Uuid, RepositoryCredentialRevision}
use tci.Session.{Session, ok, err, integrity_error}
use tci.Persistence.Table.{no_clash}

-- The primary key, and the partial unique index on the active revision of a connection.
unfoldable pub credential_clash : RepositoryCredentialRevision → RepositoryCredentialRevision → Bool
credential_clash a b =
    a.id == b.id
    || (a.connection_id == b.connection_id
        && (a.status == CredentialRevisionStatus.active
            && b.status == CredentialRevisionStatus.active))

-- The check constraint of an active revision. No operation writes a revision in its grace period.
abbrev pub is_read_only : RepositoryCredentialRevision → Bool
is_read_only r = not (r.status == CredentialRevisionStatus.active) || r.read_only_validated

unfoldable pub create_credential :
    RepositoryCredentialRevision → Session RepositoryCredentialRevision
create_credential draft db =
    if no_clash credential_clash (draft ∷ db.credentials) && is_read_only draft
    then (ok draft, record db { credentials = draft ∷ db.credentials })
    else (err integrity_error, db)

abbrev pub is_active_credential : Uuid → RepositoryCredentialRevision → Bool
is_active_credential connection_id r =
    r.connection_id == connection_id && r.status == CredentialRevisionStatus.active

unfoldable pub get_active_credential : Uuid → Session (Option RepositoryCredentialRevision)
get_active_credential connection_id db =
    (ok (find? (is_active_credential connection_id) db.credentials), db)
