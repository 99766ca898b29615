-- ===== src/Services/Snapshot.antt =====
-- domain/services/build_code_snapshot.py: what it reads and what it takes from outside.
pub mod Failure
pub mod Remote
pub mod Build
pub mod Found
use tci.Prelude.{ℕ, Bool, true, false, Option, none, some, String, List, ◌==◌, if◌then◌else◌}
use tci.Models.Enums.Types.{
  RepositoryProvider, RepositoryTransport, RefType, DefaultRefType, CredentialType, SyncRunStatus,
}
use tci.Models.Rows.{
  Uuid, Instant, RepositoryConnection, RepositorySyncRun, RepositoryCredentialRevision,
  CollectionScopeRuleVersion, CodeSnapshotFile,
}
use tci.Session.{
  Session, Result, Database, Error, pure, require, session_scope, ◌>>=◌, lookup_error,
}
use tci.Persistence.Connections.{get_owned}
use tci.Persistence.Credentials.{get_active_credential}
use tci.Persistence.SyncRuns.{get}
use tci.Services.Credential.{Outcome}
use tci.Webhooks.Scope.{SnapshotArchiveEntryDraft}

pub record BuildCodeSnapshotCommand : Type 0 where
  pub workspace_id : Uuid
  pub connection_id : Uuid
  pub sync_run_id : Uuid

-- `credential_type` and `encrypted_secret`, which are of one revision or both absent.
pub record ActiveCredential : Type 0 where
  pub credential_type : CredentialType
  pub encrypted_secret : String

pub record SnapshotBuildContext : Type 0 where
  pub connection_id : Uuid
  pub planning_input_reference_id : Uuid
  pub provider : RepositoryProvider
  pub provider_instance_url : Option String
  pub remote_url : String
  pub transport : RepositoryTransport
  pub requested_ref_type : RefType
  pub requested_ref_name : String
  pub sync_run_status : SyncRunStatus
  pub credential : Option ActiveCredential

-- The identifiers that the manifest of a snapshot is to trace it by.
pub record SnapshotTraceability : Type 0 where
  pub planning_input_reference_id : Uuid
  pub connection_id : Uuid
  pub scope_rule_version_id : Uuid
  pub sync_run_id : Uuid
  pub snapshot_id : Uuid

-- What the service reads of an archive that is stored.
pub record SnapshotArchive : Type 0 where
  pub archive_path : String
  pub files : List CodeSnapshotFile

pub record MaterializedSnapshot (Rest : Type 0) : Type 0 where
  pub tree_sha : String
  pub entries : List (SnapshotArchiveEntryDraft Rest)

-- What one attempt takes from outside: the dependencies that git, the credential agent and the disk
-- stand behind, what other sessions commit while git runs, the clock and the identifiers.
pub record Attempt (Rest : Type 0) : Type 0 where
  pub ensure_host_allowed : SnapshotBuildContext → Outcome Unit
  -- the agent or the askpass server for a secret, around the run of git
  pub start_agent : RepositoryTransport → String → Outcome Unit
  pub resolve : String → DefaultRefType → String → Result String
  pub ensure_synced_mirror : Uuid → String → Result String
  pub read_snapshot_entries :
      String → String → CollectionScopeRuleVersion → Result (MaterializedSnapshot Rest)
  pub elsewhere : Database → Database
  pub store : Uuid → List (SnapshotArchiveEntryDraft Rest) → Result SnapshotArchive
  pub write_manifest : SnapshotArchive → SnapshotTraceability → Outcome Unit
  -- `str` of an exception, and the detail of a RepositoryConnectionProblem, empty for None
  pub show_error : Error → String
  pub detail : Error → String
  pub started_at : Instant
  pub now : Instant
  pub failed_at : Instant
  pub created_at : Instant
  pub snapshot_uuid : Uuid
  pub scope_uuid : Uuid

-- `_resolver_ref_type`
abbrev pub resolver_ref_type : RefType → DefaultRefType
resolver_ref_type RefType.pull_request_branch = DefaultRefType.branch
resolver_ref_type RefType.branch = DefaultRefType.branch
resolver_ref_type RefType.tag = DefaultRefType.tag

abbrev pub active_credential : Option RepositoryCredentialRevision → Option ActiveCredential
active_credential none = none
active_credential (some r) =
    some (record { credential_type = r.credential_type; encrypted_secret = r.encrypted_secret })

abbrev pub context_of :
    RepositoryConnection
    → RepositorySyncRun
    → Option RepositoryCredentialRevision
    → SnapshotBuildContext
context_of connection sync_run credential_revision = record {
  connection_id = connection.id;
  planning_input_reference_id = connection.planning_input_reference_id;
  provider = connection.provider;
  provider_instance_url = connection.provider_instance_url;
  remote_url = connection.remote_url;
  transport = connection.transport;
  requested_ref_type = sync_run.requested_ref_type;
  requested_ref_name = sync_run.requested_ref_name;
  sync_run_status = sync_run.status;
  credential = active_credential credential_revision;
}

-- `_load_snapshot_context`
unfoldable pub load_snapshot_context : BuildCodeSnapshotCommand → Session SnapshotBuildContext
unfolding get_owned get get_active_credential session_scope
load_snapshot_context command = session_scope do
  found ← get_owned command.workspace_id command.connection_id
  connection ← require lookup_error found
  found_run ← get connection.id command.sync_run_id
  sync_run ← require lookup_error found_run
  credential_revision ← get_active_credential connection.id
  pure (context_of connection sync_run credential_revision)
