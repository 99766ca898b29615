-- ===== src/Services/Snapshot/Build.antt =====
-- `build_code_snapshot` of domain/services/build_code_snapshot.py, with a session factory. Archives
-- are on disk; their removal after an error is left out.
pub mod Laws
use tci.Prelude.{
  ℕ, zero, suc, ◌+◌, Bool, true, false, not, ◌&&◌, Option, none, some, List, [], ◌∷◌, String,
  length, if◌then◌else◌, ◌==◌, nat_eq,
}
use tci.Models.Enums.Types.{SyncRunStatus, SyncFailureCode, RepositoryConnectionStatus}
use tci.Models.Enums.Equality.{sync_run_status_eq}
use tci.Models.Rows.{Uuid, CollectionScopeRuleVersion, CodeSnapshot, CodeSnapshotFile}
use tci.Session.{
  Session, Error, ProblemCode, pure, raise, require, lift, catch, session_scope, ◌>>=◌, ◌>>◌,
  problem, lookup_error, integrity_error, scope_changed_error,
}
use tci.Persistence.Connections.{record_snapshot_success}
use tci.Persistence.ScopeRules.{ensure_default_scope_rule_version}
use tci.Persistence.Snapshots.{create_snapshot, get_by_sync_run_id}
use tci.Persistence.SyncRuns.Operations.{mark_running, mark_succeeded}
use tci.Webhooks.Scope.{
  PathRules, ScopeFilterRuleSet, SnapshotArchiveEntryDraft, filter_snapshot_entries, is_empty,
}
use tci.Services.Platform.{Platform}
use tci.Services.Snapshot.{
  BuildCodeSnapshotCommand, ActiveCredential, SnapshotBuildContext, SnapshotTraceability,
  SnapshotArchive, Attempt, load_snapshot_context,
}
use tci.Services.Snapshot.Failure.{fail_snapshot_build, fail_empty_snapshot_build, text_or}
use tci.Services.Snapshot.Remote.{RemoteRead, read_remote, read_or_fail}

-- `rule_set_from_scope_rule`
abbrev pub rule_set_from_scope_rule : CollectionScopeRuleVersion → ScopeFilterRuleSet
rule_set_from_scope_rule scope_rule = record {
  include_paths = scope_rule.include_paths;
  exclude_paths = scope_rule.exclude_paths;
  allowed_file_types = scope_rule.allowed_file_types;
  blocked_file_types = scope_rule.blocked_file_types;
  max_file_size_bytes = scope_rule.max_file_size_bytes;
  exclude_binary = scope_rule.exclude_binary;
}

-- `_no_materialized_entries_message`
abbrev pub no_materialized_entries_message : CollectionScopeRuleVersion → String
no_materialized_entries_message scope_rule =
    if not scope_rule.is_auto_default
    then "범위 규칙을 적용한 결과 스냅샷에 포함할 파일이 없습니다."
    else "기본 수집 정책을 적용한 결과 스냅샷에 포함할 파일이 없습니다."

-- `sum(file.size_bytes for file in archive.files)`
unfoldable pub total_bytes : List CodeSnapshotFile → ℕ
total_bytes [] = 0
total_bytes (file ∷ files) = file.size_bytes + total_bytes files

-- `_load_existing_snapshot`
unfoldable pub load_existing_snapshot : Uuid → Session (Option CodeSnapshot)
unfolding get_by_sync_run_id session_scope
load_existing_snapshot sync_run_id = session_scope (get_by_sync_run_id sync_run_id)

module _ {Rest : Type 0} (p : Platform) (r : PathRules) (command : BuildCodeSnapshotCommand) where
  module _ (attempt : Attempt Rest) (retry : Option (Session CodeSnapshot))
      (context : SnapshotBuildContext) where
    module _ (read : RemoteRead Rest) where
      abbrev pub snapshot_draft : SnapshotArchive → CodeSnapshot
      snapshot_draft archive = record {
        id = attempt.snapshot_uuid;
        connection_id = context.connection_id;
        sync_run_id = command.sync_run_id;
        scope_rule_version_id = read.scope_rule.id;
        requested_ref_type = context.requested_ref_type;
        requested_ref_name = context.requested_ref_name;
        resolved_commit_sha = read.commit_sha;
        tree_sha = read.materialized.tree_sha;
        archive_path = archive.archive_path;
        file_count = length archive.files;
        total_bytes = total_bytes archive.files;
        created_at = attempt.created_at;
        files = archive.files;
      }

      abbrev pub register_snapshot : SnapshotArchive → Session CodeSnapshot
      register_snapshot archive = do
        snapshot ← create_snapshot (snapshot_draft archive)
        mark_succeeded context.connection_id command.sync_run_id read.commit_sha attempt.now
        record_snapshot_success command.workspace_id context.connection_id attempt.now
        pure snapshot

      abbrev pub register_if_current :
          SnapshotArchive → CollectionScopeRuleVersion → Session CodeSnapshot
      register_if_current archive active =
          if not (active.id == read.scope_rule.id)
          then raise scope_changed_error
          else register_snapshot archive

      -- The last transaction.
      unfoldable pub write_snapshot : SnapshotArchive → Session CodeSnapshot
      unfolding ensure_default_scope_rule_version create_snapshot mark_succeeded
          record_snapshot_success session_scope
      write_snapshot archive = session_scope do
        active ←
            ensure_default_scope_rule_version attempt.scope_uuid command.workspace_id
              context.connection_id command.workspace_id
        register_if_current archive active

      abbrev pub retry_or_fail : Option (Session CodeSnapshot) → Session CodeSnapshot
      retry_or_fail (some again) = again
      retry_or_fail none =
          fail_snapshot_build command SyncFailureCode.mirror_sync_failed
            "범위 규칙이 스냅샷 생성 중 변경되었습니다. 다시 시도하세요." none attempt.failed_at

      abbrev pub existing_or_raise : Error → Option CodeSnapshot → Session CodeSnapshot
      existing_or_raise error none = raise error
      existing_or_raise error (some snapshot) = pure snapshot

      abbrev pub fail_write : Error → Session CodeSnapshot
      fail_write error =
          fail_snapshot_build command SyncFailureCode.snapshot_write_failed
            (text_or (attempt.show_error error) "스냅샷 메타데이터 저장에 실패했습니다.") none attempt.failed_at

      -- The handlers of the last transaction.
      abbrev pub on_write_error : Error → Session CodeSnapshot
      on_write_error scope_changed_error = retry_or_fail retry
      on_write_error (problem code) = raise (problem code)
      on_write_error integrity_error = do
        snapshot ← load_existing_snapshot command.sync_run_id
        existing_or_raise integrity_error snapshot
      on_write_error error = fail_write error

      abbrev pub traceability : SnapshotTraceability
      traceability = record {
        planning_input_reference_id = context.planning_input_reference_id;
        connection_id = context.connection_id;
        scope_rule_version_id = read.scope_rule.id;
        sync_run_id = command.sync_run_id;
        snapshot_id = attempt.snapshot_uuid;
      }

      abbrev pub store_archive : List (SnapshotArchiveEntryDraft Rest) → Session SnapshotArchive
      store_archive entries = do
        archive ← lift (attempt.store attempt.snapshot_uuid entries)
        lift (attempt.write_manifest archive traceability)
        pure archive

      abbrev pub fail_store : Error → Session SnapshotArchive
      fail_store error =
          fail_snapshot_build command SyncFailureCode.snapshot_write_failed
            (text_or (attempt.show_error error) "스냅샷 저장에 실패했습니다.") none attempt.failed_at

      abbrev pub store_and_write : List (SnapshotArchiveEntryDraft Rest) → Session CodeSnapshot
      store_and_write entries = do
        archive ← catch (store_archive entries) fail_store
        catch (write_snapshot archive) on_write_error

      abbrev pub write_filtered : List (SnapshotArchiveEntryDraft Rest) → Session CodeSnapshot
      write_filtered entries =
          if is_empty read.materialized.entries
          then fail_empty_snapshot_build command attempt context
              (no_materialized_entries_message read.scope_rule) retry read.scope_rule
          else if is_empty entries
          then fail_empty_snapshot_build command attempt context "범위 규칙을 적용한 결과 스냅샷에 포함할 파일이 없습니다."
              retry read.scope_rule
          else store_and_write entries

    abbrev pub build_from : RemoteRead Rest → Session CodeSnapshot
    build_from read = write_filtered read (
        filter_snapshot_entries r (rule_set_from_scope_rule read.scope_rule)
          read.materialized.entries)

    abbrev pub build_with : Option ActiveCredential → Session CodeSnapshot
    build_with none =
        fail_snapshot_build command SyncFailureCode.auth_failed "활성 자격 증명을 찾을 수 없습니다."
          (some RepositoryConnectionStatus.reauth_required) attempt.failed_at
    build_with (some credential) = do
      read ← read_or_fail p attempt command context credential
      build_from read

    abbrev pub mark_if_pending : Session Unit
    mark_if_pending =
        if not (context.sync_run_status == SyncRunStatus.pending)
        then pure tt
        else do mark_running command.connection_id command.sync_run_id attempt.started_at; pure tt

    abbrev pub build_new : Session CodeSnapshot
    build_new = do mark_if_pending; build_with context.credential

    abbrev pub existing_snapshot : Session CodeSnapshot
    existing_snapshot = do
      snapshot ← load_existing_snapshot command.sync_run_id
      require lookup_error snapshot

    -- What follows the context, with `_allow_running_retry`.
    abbrev pub build_in : Bool → Session CodeSnapshot
    build_in allow_running_retry =
        if context.sync_run_status == SyncRunStatus.succeeded
        then existing_snapshot
        else if context.sync_run_status == SyncRunStatus.running && allow_running_retry
        then build_new
        else if not (context.sync_run_status == SyncRunStatus.pending)
        then raise (problem ProblemCode.invalid_input)
        else build_new

  unfoldable pub build_once :
      Attempt Rest → Option (Session CodeSnapshot) → Bool → Session CodeSnapshot
  unfolding load_snapshot_context mark_running write_snapshot load_existing_snapshot read_remote
      fail_snapshot_build fail_empty_snapshot_build filter_snapshot_entries
  build_once attempt retry allow_running_retry = do
    context ← load_snapshot_context command
    build_in attempt retry context allow_running_retry

  -- `build_code_snapshot` with `_scope_retry_count`, by which the attempts are numbered.
  unfoldable pub build_code_snapshot : (ℕ → Attempt Rest) → ℕ → Bool → Session CodeSnapshot
  unfolding build_once
  build_code_snapshot attempts zero allow_running_retry =
      build_once (attempts 0) none allow_running_retry
  build_code_snapshot attempts (suc n) allow_running_retry =
      let next = build_code_snapshot attempts n true in
      build_once (attempts (suc n)) (some next) allow_running_retry
