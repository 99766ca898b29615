-- ===== src/Services/Safety/Snapshot/Remote.antt =====
-- What the building of a snapshot reads, with respect to the sync runs.
use tci.Prelude.{not, List, String, ◌==◌, nat_eq}
use tci.Models.Enums.Types.{CredentialType}
use tci.Models.Enums.Equality.{sync_run_status_eq, credential_type_eq}
use tci.Models.Rows.{Uuid, RepositorySyncRun, RepositoryConnection}
use tci.Session.{Session, Database, pure, require, lift, ◌>>=◌, lookup_error}
use tci.Session.Rules.{Preserves-if}
use tci.Persistence.Connections.{get_owned}
use tci.Persistence.Credentials.{get_active_credential}
use tci.Persistence.ScopeRules.{ensure_default_scope_rule_version}
use tci.Persistence.Snapshots.{get_by_sync_run_id}
use tci.Persistence.SyncRuns.{get}
use tci.Services.Platform.{Platform, decrypt_secret_from_storage}
use tci.Services.Credential.{credential_type_for, bind_git_credential}
use tci.Services.Safety.{Safe}
use tci.Services.Safety.Tables.{Safe-bind, Safe-required}
use tci.Services.Safety.Snapshot.{Safe-lifted, Safe-scope, Safe-ensure_default_scope_rule}
use tci.Services.Snapshot.{
  BuildCodeSnapshotCommand, ActiveCredential, SnapshotBuildContext, Attempt, load_snapshot_context,
  context_of, resolver_ref_type,
}
use tci.Services.Snapshot.Remote.{
  interleave, ensure_scope, end_read, read_entries, read_mirror, read_commit, read_decrypted,
  read_bound, read_remote,
}
use tci.Services.Snapshot.Build.{load_existing_snapshot}

module _ (J : List RepositorySyncRun → Type 0) where
  pub Safe-load_existing : (i : Uuid) → Safe J (load_existing_snapshot i)
  unfolding load_existing_snapshot get_by_sync_run_id
  Safe-load_existing i = Safe-scope J (get_by_sync_run_id i) (λ db h. h)

  pub Safe-load_context :
      (command : BuildCodeSnapshotCommand) → Safe J (load_snapshot_context command)
  unfolding load_snapshot_context get_owned get get_active_credential
  Safe-load_context command =
      Safe-scope J
        (get_owned command.workspace_id command.connection_id >>= λ found.
          require lookup_error found >>= with_connection)
        (Safe-bind J (get_owned command.workspace_id command.connection_id)
          (λ found. require lookup_error found >>= with_connection) (λ db h. h)
          λ found. Safe-required J lookup_error found with_connection λ connection.
            Safe-bind J (get connection.id command.sync_run_id)
              (λ run. require lookup_error run >>= with_run connection) (λ db h. h)
              λ run. Safe-required J lookup_error run (with_run connection) (λ found_run db h. h))
    where
      with_run : RepositoryConnection → RepositorySyncRun → Session SnapshotBuildContext
      with_run connection run = get_active_credential connection.id >>= λ credential.
          pure (context_of connection run credential)

      with_connection : RepositoryConnection → Session SnapshotBuildContext
      with_connection connection = get connection.id command.sync_run_id >>= λ run.
          require lookup_error run >>= with_run connection

  module _ {Rest : Type 0} (p : Platform) (attempt : Attempt Rest)
      (commits : (db : Database) → J db.sync_runs → J (attempt.elsewhere db).sync_runs)
      (command : BuildCodeSnapshotCommand) (context : SnapshotBuildContext) where
    Safe-ensure_scope : Safe J (ensure_scope p attempt command context)
    Safe-ensure_scope =
        Safe-scope J
          (ensure_default_scope_rule_version attempt.scope_uuid command.workspace_id
            command.connection_id command.workspace_id)
          (Safe-ensure_default_scope_rule J attempt.scope_uuid command.workspace_id
            command.connection_id command.workspace_id)

    Safe-read_mirror :
        (sha mirror : String) → Safe J (read_mirror p attempt command context sha mirror)
    Safe-read_mirror sha mirror =
        Safe-bind J (ensure_scope p attempt command context)
          (read_entries p attempt command context sha mirror) Safe-ensure_scope
          λ rule.
            Safe-bind J (interleave attempt.elsewhere)
              (λ _.
                lift (attempt.read_snapshot_entries mirror sha rule)
                >>= end_read p attempt command context sha rule)
              commits
              λ _.
                Safe-lifted J (attempt.read_snapshot_entries mirror sha rule)
                  (end_read p attempt command context sha rule) (λ entries db h. h)

    Safe-read_bound : (url : String) → Safe J (read_bound p attempt command context url)
    Safe-read_bound url =
        Safe-lifted J
          (attempt.resolve url (resolver_ref_type context.requested_ref_type)
            context.requested_ref_name)
          (read_commit p attempt command context url)
          λ sha.
            Safe-lifted J (attempt.ensure_synced_mirror context.connection_id url)
              (read_mirror p attempt command context sha) (Safe-read_mirror sha)

    Safe-bind_git_credential :
        (kind : CredentialType) (secret : String)
        → Safe J (
            bind_git_credential attempt.start_agent context.transport context.remote_url kind
              secret)
    unfolding bind_git_credential
    Safe-bind_git_credential kind secret =
        Preserves-if (λ db. J db.sync_runs) (not (kind == credential_type_for context.transport)) _
          _ (λ db h. h)
          (Safe-lifted J (attempt.start_agent context.transport secret)
            (λ _. pure context.remote_url) (λ _ db h. h))

    pub Safe-read_remote :
        (credential : ActiveCredential) → Safe J (read_remote p attempt command context credential)
    unfolding read_remote
    Safe-read_remote credential =
        Safe-lifted J (attempt.ensure_host_allowed context)
          (λ _.
            lift (decrypt_secret_from_storage p credential.encrypted_secret)
            >>= read_decrypted p attempt command context credential.credential_type)
          λ _.
            Safe-lifted J (decrypt_secret_from_storage p credential.encrypted_secret)
              (read_decrypted p attempt command context credential.credential_type)
              λ secret.
                Safe-bind J
                  (bind_git_credential attempt.start_agent context.transport context.remote_url
                    credential.credential_type secret)
                  (read_bound p attempt command context)
                  (Safe-bind_git_credential credential.credential_type secret) Safe-read_bound
