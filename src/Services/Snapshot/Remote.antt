-- ===== src/Services/Snapshot/Remote.antt =====
-- What domain/services/build_code_snapshot.py reads from the remote.
use tci.Prelude.{String}
use tci.Models.Enums.Types.{CredentialType}
use tci.Models.Enums.Equality.{credential_type_eq}
use tci.Models.Rows.{CollectionScopeRuleVersion}
use tci.Session.{Session, Database, Error, ok, pure, lift, catch, session_scope, ◌>>=◌, ◌>>◌}
use tci.Persistence.ScopeRules.{ensure_default_scope_rule_version}
use tci.Services.Platform.{Platform, decrypt_secret_from_storage}
use tci.Services.Credential.{bind_git_credential}
use tci.Services.Snapshot.{
  BuildCodeSnapshotCommand, ActiveCredential, SnapshotBuildContext, MaterializedSnapshot, Attempt,
  resolver_ref_type,
}
use tci.Services.Snapshot.Failure.{
  classify_snapshot_failure, problem_code, fail_snapshot_build, Classified,
}

-- What the try block leaves.
pub record RemoteRead (Rest : Type 0) : Type 0 where
  pub commit_sha : String
  pub scope_rule : CollectionScopeRuleVersion
  pub materialized : MaterializedSnapshot Rest

abbrev pub remote_read :
    {Rest : Type 0}
    → String
    → CollectionScopeRuleVersion
    → MaterializedSnapshot Rest
    → RemoteRead Rest
remote_read commit_sha scope_rule materialized = record {
  commit_sha = commit_sha;
  scope_rule = scope_rule;
  materialized = materialized;
}

-- What other sessions commit between two transactions: here once the scope rule is read, before git
-- reads the entries.
abbrev pub interleave : (Database → Database) → Session Unit
interleave change db = (ok tt, change db)

module _ {Rest : Type 0} (p : Platform) (attempt : Attempt Rest)
    (command : BuildCodeSnapshotCommand) (context : SnapshotBuildContext) where
  abbrev pub end_read :
      String → CollectionScopeRuleVersion → MaterializedSnapshot Rest → Session (RemoteRead Rest)
  end_read commit_sha scope_rule materialized =
      pure (remote_read commit_sha scope_rule materialized)

  abbrev pub read_entries : String → String → CollectionScopeRuleVersion → Session (RemoteRead Rest)
  read_entries commit_sha mirror scope_rule = do
    interleave attempt.elsewhere
    materialized ← lift (attempt.read_snapshot_entries mirror commit_sha scope_rule)
    end_read commit_sha scope_rule materialized

  -- `_ensure_default_scope_rule_version`
  abbrev pub ensure_scope : Session CollectionScopeRuleVersion
  ensure_scope = session_scope (
      ensure_default_scope_rule_version attempt.scope_uuid command.workspace_id
        command.connection_id command.workspace_id)

  abbrev pub read_mirror : String → String → Session (RemoteRead Rest)
  read_mirror commit_sha mirror = do
    scope_rule ← ensure_scope
    read_entries commit_sha mirror scope_rule

  abbrev pub read_commit : String → String → Session (RemoteRead Rest)
  read_commit remote_url commit_sha = do
    mirror ← lift (attempt.ensure_synced_mirror context.connection_id remote_url)
    read_mirror commit_sha mirror

  abbrev pub read_bound : String → Session (RemoteRead Rest)
  read_bound remote_url = do
    commit_sha ← lift (
        attempt.resolve remote_url (resolver_ref_type context.requested_ref_type)
          context.requested_ref_name)
    read_commit remote_url commit_sha

  abbrev pub read_decrypted : CredentialType → String → Session (RemoteRead Rest)
  read_decrypted credential_type credential_secret = do
    remote_url ←
        bind_git_credential attempt.start_agent context.transport context.remote_url credential_type
          credential_secret
    read_bound remote_url

  -- The body of the try block.
  unfoldable pub read_remote : ActiveCredential → Session (RemoteRead Rest)
  unfolding decrypt_secret_from_storage ensure_default_scope_rule_version session_scope
      bind_git_credential
  read_remote credential = do
    lift (attempt.ensure_host_allowed context)
    credential_secret ← lift (decrypt_secret_from_storage p credential.encrypted_secret)
    read_decrypted credential.credential_type credential_secret

  abbrev pub fail_classified : Classified → Session (RemoteRead Rest)
  fail_classified failure =
      fail_snapshot_build command failure.failure_code failure.failure_message
        failure.connection_status attempt.failed_at

  -- The handler of the try block.
  abbrev pub fail_read : Error → Session (RemoteRead Rest)
  fail_read error = fail_classified (
      classify_snapshot_failure (problem_code error) (attempt.show_error error)
        (attempt.detail error))

  abbrev pub read_or_fail : ActiveCredential → Session (RemoteRead Rest)
  read_or_fail credential = catch (read_remote credential) fail_read
