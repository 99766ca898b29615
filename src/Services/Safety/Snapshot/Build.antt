-- ===== src/Services/Safety/Snapshot/Build.antt =====
-- `build_code_snapshot`, with respect to the sync runs.
use tci.Prelude.{
  ◌≡◌, refl, ℕ, zero, suc, Bool, true, not, ◌&&◌, Option, none, some, List, String, ◌==◌, nat_eq,
}
use tci.Models.Enums.Types.{SyncFailureCode, SyncRunStatus}
use tci.Models.Enums.Equality.{sync_run_status_eq, credential_type_eq}
use tci.Models.Rows.{
  Uuid, Instant, RepositorySyncRun, RepositoryConnection, CodeSnapshot, CollectionScopeRuleVersion,
}
use tci.Session.{
  Session, Database, Error, pure, require, lift, catch, ◌>>=◌, problem, lookup_error, runtime_error,
  value_error, type_error, integrity_error, git_auth_error, git_ref_not_found_error,
  scope_changed_error,
}
use tci.Session.Rules.{Preserves-if, Preserves-catch}
use tci.Persistence.Connections.{record_snapshot_success}
use tci.Persistence.ScopeRules.{ensure_default_scope_rule_version}
use tci.Persistence.Snapshots.{create_snapshot}
use tci.Persistence.SyncRuns.Operations.{mark_failed, mark_running, mark_succeeded}
use tci.Persistence.SyncRuns.Succeeded.{HasSucceeded}
use tci.Persistence.SyncRuns.Succeeded.Operations.{
  Keeps-mark_failed, Keeps-mark_running, Keeps-mark_succeeded,
}
use tci.Webhooks.Scope.{PathRules, SnapshotArchiveEntryDraft, is_empty, filter_snapshot_entries}
use tci.Services.Platform.{Platform}
use tci.Services.Safety.{Safe}
use tci.Services.Safety.Tables.{Safe-bind, Safe-require}
use tci.Services.Safety.Snapshot.{
  Safe-lifted, Safe-scope, Safe-ensure_default_scope_rule, Safe-create_snapshot,
  Safe-record_snapshot_success, Safe-fail_snapshot_build, Safe-fail_empty,
}
use tci.Services.Snapshot.{
  BuildCodeSnapshotCommand, ActiveCredential, SnapshotBuildContext, SnapshotArchive, Attempt,
  load_snapshot_context,
}
use tci.Services.Snapshot.Failure.{fail_empty_snapshot_build}
use tci.Services.Snapshot.Remote.{RemoteRead, read_remote, fail_read, read_or_fail}
use tci.Services.Snapshot.Build.{
  load_existing_snapshot, register_snapshot, register_if_current, write_snapshot, retry_or_fail,
  existing_or_raise, on_write_error, store_archive, traceability, fail_store, fail_write,
  store_and_write, build_from, build_with, mark_if_pending, build_new, build_in, build_once,
  build_code_snapshot, snapshot_draft, rule_set_from_scope_rule,
}
use tci.Services.Safety.Snapshot.Remote.{Safe-load_existing, Safe-load_context, Safe-read_remote}

module _ (J : List RepositorySyncRun → Type 0) {Rest : Type 0} (p : Platform)
    (attempt : Attempt Rest)
    (commits : (db : Database) → J db.sync_runs → J (attempt.elsewhere db).sync_runs)
    (command : BuildCodeSnapshotCommand) (context : SnapshotBuildContext)
    (fails : (c i : Uuid) (code : SyncFailureCode) (text : String) (at : Instant)
      → Safe J (mark_failed c i code text at))
    (starts : (c i : Uuid) (at : Instant) → Safe J (mark_running c i at))
    (succeeds : (c i : Uuid) (sha : String) (at : Instant) → Safe J (mark_succeeded c i sha at))
    (r : PathRules) (retry : Option (Session CodeSnapshot))
    (again_safe : (again : Session CodeSnapshot) → retry ≡ some again → Safe J again) where
  Safe-read_or_fail :
      (credential : ActiveCredential) → Safe J (read_or_fail p attempt command context credential)
  Safe-read_or_fail credential =
      Preserves-catch (λ db. J db.sync_runs) (read_remote p attempt command context credential)
        (fail_read p attempt command context)
        (Safe-read_remote J p attempt commits command context credential)
        (λ x. Safe-fail_snapshot_build J fails command (RemoteRead Rest) _ _ _ attempt.failed_at)

  module _ (read : RemoteRead Rest) where
    Safe-register :
        (archive : SnapshotArchive)
        → Safe J (register_snapshot p r command attempt retry context read archive)
    Safe-register archive =
        Safe-bind J (create_snapshot draft) (λ s. succeed >>= λ _. note >>= λ _. pure s)
          (Safe-create_snapshot J draft)
          λ s.
            Safe-bind J succeed (λ _. note >>= λ _. pure s)
              (succeeds context.connection_id command.sync_run_id read.commit_sha attempt.now)
              λ _.
                Safe-bind J note (λ _. pure s)
                  (Safe-record_snapshot_success J command.workspace_id context.connection_id
                    attempt.now)
                  (λ _ db h. h)
      where
        draft : CodeSnapshot
        draft = snapshot_draft p r command attempt retry context read archive

        succeed : Session RepositorySyncRun
        succeed =
            mark_succeeded context.connection_id command.sync_run_id read.commit_sha attempt.now

        note : Session RepositoryConnection
        note = record_snapshot_success command.workspace_id context.connection_id attempt.now

    Safe-write_snapshot :
        (archive : SnapshotArchive)
        → Safe J (write_snapshot p r command attempt retry context read archive)
    unfolding write_snapshot
    Safe-write_snapshot archive =
        Safe-scope J (ensure >>= register_if_current p r command attempt retry context read archive)
          (Safe-bind J ensure (register_if_current p r command attempt retry context read archive)
            (Safe-ensure_default_scope_rule J attempt.scope_uuid command.workspace_id
              context.connection_id command.workspace_id)
            λ active.
              Preserves-if (λ db. J db.sync_runs) (not (active.id == read.scope_rule.id)) _ _
                (λ db h. h) (Safe-register archive))
      where
        ensure : Session CollectionScopeRuleVersion
        ensure =
            ensure_default_scope_rule_version attempt.scope_uuid command.workspace_id
              context.connection_id command.workspace_id

    Safe-retry_or_fail :
        (next : Option (Session CodeSnapshot))
        → ((again : Session CodeSnapshot) → next ≡ some again → Safe J again)
        → Safe J (retry_or_fail p r command attempt retry context read next)
    Safe-retry_or_fail none safe =
        Safe-fail_snapshot_build J fails command CodeSnapshot _ _ _ attempt.failed_at
    Safe-retry_or_fail (some again) safe = safe again refl

    fails_write : (x : Error) → Safe J (fail_write p r command attempt retry context read x)
    fails_write x = Safe-fail_snapshot_build J fails command CodeSnapshot _ _ _ attempt.failed_at

    Safe-on_write_error :
        (x : Error) → Safe J (on_write_error p r command attempt retry context read x)
    Safe-on_write_error scope_changed_error = Safe-retry_or_fail retry again_safe
    Safe-on_write_error (problem code) = λ db h. h
    Safe-on_write_error integrity_error =
        Safe-bind J (load_existing_snapshot command.sync_run_id)
          (existing_or_raise p r command attempt retry context read integrity_error)
          (Safe-load_existing J command.sync_run_id) answers
      where
        answers :
            (found : Option CodeSnapshot)
            → Safe J
                (existing_or_raise p r command attempt retry context read integrity_error found)
        answers none = λ db h. h
        answers (some s) = λ db h. h
    Safe-on_write_error lookup_error = fails_write lookup_error
    Safe-on_write_error runtime_error = fails_write runtime_error
    Safe-on_write_error value_error = fails_write value_error
    Safe-on_write_error type_error = fails_write type_error
    Safe-on_write_error git_auth_error = fails_write git_auth_error
    Safe-on_write_error git_ref_not_found_error = fails_write git_ref_not_found_error

    Safe-store_and_write :
        (entries : List (SnapshotArchiveEntryDraft Rest))
        → Safe J (store_and_write p r command attempt retry context read entries)
    Safe-store_and_write entries =
        Safe-bind J
          (catch (store_archive p r command attempt retry context read entries)
            (fail_store p r command attempt retry context read))
          (λ archive.
            catch (write_snapshot p r command attempt retry context read archive)
              (on_write_error p r command attempt retry context read))
          (Preserves-catch (λ db. J db.sync_runs)
            (store_archive p r command attempt retry context read entries)
            (fail_store p r command attempt retry context read) stores
            (λ x. Safe-fail_snapshot_build J fails command SnapshotArchive _ _ _ attempt.failed_at))
          λ archive.
            Preserves-catch (λ db. J db.sync_runs)
              (write_snapshot p r command attempt retry context read archive)
              (on_write_error p r command attempt retry context read) (Safe-write_snapshot archive)
              Safe-on_write_error
      where
        manifest : SnapshotArchive → Session SnapshotArchive
        manifest archive =
            lift
              (attempt.write_manifest archive (traceability p r command attempt retry context read))
            >>= λ _. pure archive

        stores : Safe J (store_archive p r command attempt retry context read entries)
        stores = Safe-lifted J (attempt.store attempt.snapshot_uuid entries) manifest λ archive.
            Safe-lifted J
              (attempt.write_manifest archive (traceability p r command attempt retry context read))
              (λ _. pure archive) (λ _ db h. h)

    Safe-build_from : Safe J (build_from p r command attempt retry context read)
    Safe-build_from =
        Preserves-if (λ db. J db.sync_runs) (is_empty read.materialized.entries) _ _ (empty _)
          (Preserves-if (λ db. J db.sync_runs) (is_empty filtered) _ _ (empty _)
            (Safe-store_and_write filtered))
      where
        filtered : List (SnapshotArchiveEntryDraft Rest)
        filtered =
            filter_snapshot_entries r (rule_set_from_scope_rule read.scope_rule)
              read.materialized.entries

        empty :
            (text : String)
            → Safe J (fail_empty_snapshot_build command attempt context text retry read.scope_rule)
        empty text =
            Safe-fail_empty J fails command attempt context text retry again_safe read.scope_rule

  Safe-build_with :
      (credential : Option ActiveCredential)
      → Safe J (build_with p r command attempt retry context credential)
  Safe-build_with none =
      Safe-fail_snapshot_build J fails command CodeSnapshot _ _ _ attempt.failed_at
  Safe-build_with (some credential) =
      Safe-bind J (read_or_fail p attempt command context credential)
        (build_from p r command attempt retry context) (Safe-read_or_fail credential)
        Safe-build_from

  Safe-build_new : Safe J (build_new p r command attempt retry context)
  Safe-build_new =
      Safe-bind J (mark_if_pending p r command attempt retry context)
        (λ _. build_with p r command attempt retry context context.credential)
        (Preserves-if (λ db. J db.sync_runs)
          (not (context.sync_run_status == SyncRunStatus.pending)) _ _ (λ db h. h)
          (Safe-bind J (mark_running command.connection_id command.sync_run_id attempt.started_at)
            (λ _. pure tt) (starts command.connection_id command.sync_run_id attempt.started_at)
            (λ _ db h. h)))
        (λ _. Safe-build_with context.credential)

  Safe-build_in : (again : Bool) → Safe J (build_in p r command attempt retry context again)
  Safe-build_in again =
      Preserves-if (λ db. J db.sync_runs) (context.sync_run_status == SyncRunStatus.succeeded) _ _
        (Safe-bind J (load_existing_snapshot command.sync_run_id) (require lookup_error)
          (Safe-load_existing J command.sync_run_id) (Safe-require J lookup_error))
        (Preserves-if (λ db. J db.sync_runs)
          (context.sync_run_status == SyncRunStatus.running && again) _ _ Safe-build_new
          (Preserves-if (λ db. J db.sync_runs)
            (not (context.sync_run_status == SyncRunStatus.pending)) _ _ (λ db h. h)
            Safe-build_new))

module _ (J : List RepositorySyncRun → Type 0)
    (fails : (c i : Uuid) (code : SyncFailureCode) (text : String) (at : Instant)
      → Safe J (mark_failed c i code text at))
    (starts : (c i : Uuid) (at : Instant) → Safe J (mark_running c i at))
    (succeeds : (c i : Uuid) (sha : String) (at : Instant) → Safe J (mark_succeeded c i sha at))
    {Rest : Type 0} (p : Platform) (r : PathRules) (command : BuildCodeSnapshotCommand)
    (attempts : ℕ → Attempt Rest)
    (commits : (n : ℕ) (db : Database)
      → J db.sync_runs
      → J ((attempts n).elsewhere db).sync_runs) where
  Safe-build_once :
      (n : ℕ) (retry : Option (Session CodeSnapshot))
      → ((again : Session CodeSnapshot) → retry ≡ some again → Safe J again)
      → (again : Bool) → Safe J (build_once p r command (attempts n) retry again)
  unfolding build_once
  Safe-build_once n retry safe again =
      Safe-bind J (load_snapshot_context command)
        (λ context. build_in p r command (attempts n) retry context again)
        (Safe-load_context J command)
        λ context.
          Safe-build_in J p (attempts n) (commits n) command context fails starts succeeds r retry
            safe again

  pub Safe-build_code_snapshot :
      (n : ℕ) (again : Bool) → Safe J (build_code_snapshot p r command attempts n again)
  unfolding build_code_snapshot
  Safe-build_code_snapshot zero again = Safe-build_once 0 none (λ next e. cc) again
  Safe-build_code_snapshot (suc n) again =
      Safe-build_once (suc n) (some (build_code_snapshot p r command attempts n true))
        (λ next e.
          let same : next ≡ build_code_snapshot p r command attempts n true = cc in
          rw same (Safe-build_code_snapshot n true))
        again

-- However git, the disk and the retries of a changed scope end, the building of a snapshot takes no
-- succeeded sync run out of its status, where what the other sessions commit meanwhile does not.
pub build_keeps_succeeded :
    (k j : Uuid) {Rest : Type 0} (p : Platform) (r : PathRules) (command : BuildCodeSnapshotCommand)
    (attempts : ℕ → Attempt Rest)
    → ((n : ℕ) (db : Database)
        → HasSucceeded k j db.sync_runs
        → HasSucceeded k j ((attempts n).elsewhere db).sync_runs)
    → (n : ℕ) (again : Bool) (db : Database) → HasSucceeded k j db.sync_runs
    → HasSucceeded k j (build_code_snapshot p r command attempts n again db).1.sync_runs
build_keeps_succeeded k j p r command attempts commits n again =
    Safe-build_code_snapshot (HasSucceeded k j) (Keeps-mark_failed k j) (Keeps-mark_running k j)
      (Keeps-mark_succeeded k j) p r command attempts commits n again
