-- ===== src/Tests/Snapshots.antt =====
-- A snapshot of a small repository.
use tci.Prelude.{◌≡◌, refl, ℕ, true, false, none, [], ◌∷◌, ◌==◌, string_eq}
use tci.Models.Enums.Types.{
  SyncRunStatus, CredentialType, CredentialRevisionStatus, SnapshotInclusionReason, RefType,
}
use tci.Models.Rows.{CodeSnapshot, CodeSnapshotFile, RepositoryCredentialRevision}
use tci.Session.{Database, ok}
use tci.Persistence.Table.{no_clash, update_where}
use tci.Persistence.SyncRuns.{clash}
use tci.Persistence.SyncRuns.Succeeded.{HasSucceeded}
use tci.Persistence.Snapshots.{snapshot_clash, file_clash}
use tci.Persistence.ScopeRules.{scope_rule_clash}
use tci.Webhooks.Scope.{PathRules, SnapshotArchiveEntryDraft}
use tci.Services.Snapshot.{BuildCodeSnapshotCommand, Attempt}
use tci.Services.Snapshot.Found.{IsFound}
use tci.Services.Snapshot.Build.{build_code_snapshot, total_bytes}
use tci.Services.Snapshot.Build.Laws.{built-IsFound}
use tci.Services.Safety.Snapshot.Build.{build_keeps_succeeded}
use tci.Queue.ManualSync.{run_manual_snapshot_sync_task, manual_sync_keeps_succeeded}
use tci.Queue.SnapshotTask.{webhook_sync, webhook_sync_keeps_succeeded}
use tci.Tests.{with_runs, run_of, platform}
use tci.Tests.Queue.{clock}

abbrev deploy_key : RepositoryCredentialRevision
deploy_key = record {
  id = 70;
  connection_id = 1;
  credential_type = CredentialType.ssh_private_key;
  encrypted_secret = "key";
  display_fingerprint = "sha256:0";
  read_only_validated = true;
  status = CredentialRevisionStatus.active;
}

abbrev pub to_build : Database
to_build =
    record (with_runs (run_of 21 SyncRunStatus.succeeded ∷ run_of 22 SyncRunStatus.pending ∷ [])) {
      credentials = deploy_key ∷ [];
    }

abbrev rules : PathRules
rules = record {
  fnmatchcase = λ path pattern. path == pattern;
  parts = λ path. path ∷ [];
  lower = λ s. s;
  starts_with_dot = λ s. false;
  ends_with = λ path suffix. false;
  ends_with_dotted = λ path suffix. false;
}

abbrev readme : SnapshotArchiveEntryDraft Unit
readme = record {
  path = "README";
  content = 84 ∷ 67 ∷ 73 ∷ [];
  included_by = SnapshotInclusionReason.default_policy;
  rest = tt;
}

abbrev stored_file : CodeSnapshotFile
stored_file = record {
  path = "README";
  extension = none;
  language_hint = none;
  size_bytes = 3;
  content_sha256 = "5ha";
  archive_blob_path = "blobs/5ha";
  included_by = SnapshotInclusionReason.default_policy;
}

abbrev attempt : ℕ → Attempt Unit
attempt n = record {
  ensure_host_allowed = λ context. ok tt;
  start_agent = λ transport secret. ok tt;
  resolve = λ url ref_type name. ok "c0ffee";
  ensure_synced_mirror = λ connection_id url. ok "mirror";
  read_snapshot_entries =
      λ mirror sha rule. ok (record { tree_sha = "7ree"; entries = readme ∷ [] });
  elsewhere = λ db. db;
  store = λ id entries. ok (record { archive_path = "80"; files = stored_file ∷ [] });
  write_manifest = λ archive traceability. ok tt;
  show_error = λ e. "";
  detail = λ e. "";
  started_at = 200;
  now = 201;
  failed_at = 202;
  created_at = 203;
  snapshot_uuid = 80;
  scope_uuid = 90;
}

abbrev command : BuildCodeSnapshotCommand
command = record { workspace_id = 2; connection_id = 1; sync_run_id = 22 }

abbrev snapshot : CodeSnapshot
snapshot = record {
  id = 80;
  connection_id = 1;
  sync_run_id = 22;
  scope_rule_version_id = 90;
  requested_ref_type = RefType.branch;
  requested_ref_name = "main";
  resolved_commit_sha = "c0ffee";
  tree_sha = "7ree";
  archive_path = "80";
  file_count = 1;
  total_bytes = 3;
  created_at = 203;
  files = stored_file ∷ [];
}

builds : (build_code_snapshot platform rules command attempt 1 false to_build).0 ≡ ok snapshot
unfolding build_code_snapshot total_bytes no_clash update_where clash snapshot_clash file_clash
    scope_rule_clash
builds = refl

built-IsFound_example :
    IsFound 22 snapshot (build_code_snapshot platform rules command attempt 1 false to_build).1
built-IsFound_example =
    built-IsFound platform rules command attempt 1 false to_build snapshot builds

build_keeps_succeeded_example :
    HasSucceeded 1 21
      (build_code_snapshot platform rules command attempt 1 false to_build).1.sync_runs
build_keeps_succeeded_example =
    build_keeps_succeeded 1 21 platform rules command attempt (λ n db h. h) 1 false to_build refl

webhook_sync_keeps_succeeded_example :
    HasSucceeded 1 21
      (webhook_sync platform rules attempt 1 22
        (λ call. true)
        true
        51
        99
        clock
        none
        to_build).1.sync_runs
webhook_sync_keeps_succeeded_example =
    webhook_sync_keeps_succeeded 1 21 platform rules attempt (λ n db h. h) 1 22 (λ call. true) true
      51 99 clock none to_build refl

manual_sync_keeps_succeeded_example :
    HasSucceeded 1 21
      (run_manual_snapshot_sync_task platform rules attempt
        (λ e. "")
        (λ call. true)
        true
        51
        clock
        command
        to_build).1.sync_runs
manual_sync_keeps_succeeded_example =
    manual_sync_keeps_succeeded 1 21 platform rules attempt (λ n db h. h) (λ e. "") (λ call. true)
      true 51 clock command to_build refl
