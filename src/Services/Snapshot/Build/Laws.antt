-- ===== src/Services/Snapshot/Build/Laws.antt =====
-- What a build that answers leaves in the table of snapshots.
use tci.Prelude.{
  ◌≡◌, refl, ℕ, zero, suc, Bool, true, not, ◌&&◌, Option, none, some, List, String, find?, ◌==◌,
  nat_eq,
}
use tci.Models.Enums.Types.{SyncFailureCode, SyncRunStatus, RepositoryConnectionStatus}
use tci.Models.Enums.Equality.{sync_run_status_eq}
use tci.Models.Rows.{
  RepositorySyncRun, RepositoryConnection, CodeSnapshot, CollectionScopeRuleVersion,
}
use tci.Session.{
  Session, Database, Error, ok, pure, raise, require, catch, session_scope, ◌>>=◌, problem,
  lookup_error, runtime_error, value_error, type_error, integrity_error, git_auth_error,
  git_ref_not_found_error, scope_changed_error,
}
use tci.Session.Rules.{Ends-bind, Ends-if, Ends-catch, Ends-scope, Ends-raise, Ends-then}
use tci.Persistence.Connections.{record_snapshot_success}
use tci.Persistence.ScopeRules.{ensure_default_scope_rule_version}
use tci.Persistence.Snapshots.{create_snapshot, is_of_run}
use tci.Persistence.SyncRuns.Operations.{mark_succeeded}
use tci.Webhooks.Scope.{PathRules, SnapshotArchiveEntryDraft, is_empty, filter_snapshot_entries}
use tci.Services.Platform.{Platform}
use tci.Services.Snapshot.{
  BuildCodeSnapshotCommand, ActiveCredential, SnapshotBuildContext, SnapshotArchive, Attempt,
  load_snapshot_context,
}
use tci.Services.Snapshot.Failure.{check_scope, end_empty, fail_empty_snapshot_build}
use tci.Services.Snapshot.Remote.{RemoteRead, read_or_fail}
use tci.Services.Snapshot.Build.{
  register_snapshot, register_if_current, write_snapshot, retry_or_fail, existing_or_raise,
  fail_write, on_write_error, store_archive, fail_store, store_and_write, build_from, build_with,
  mark_if_pending, build_new, build_in, build_once, build_code_snapshot, snapshot_draft,
  rule_set_from_scope_rule,
}
use tci.Services.Snapshot.Found.{
  Anywhere, IsFound, Finds, Finds-create, IsFound-mark_succeeded, IsFound-record_success,
  IsFound-pure, Finds-fail, Finds-load,
}

module _ {Rest : Type 0} (p : Platform) (r : PathRules) (command : BuildCodeSnapshotCommand)
    (attempt : Attempt Rest) (retry : Option (Session CodeSnapshot))
    (again_finds : (again : Session CodeSnapshot)
      → retry ≡ some again
      → Finds command.sync_run_id again)
    (context : SnapshotBuildContext) where
  module _ (read : RemoteRead Rest) where
    Finds-register :
        (archive : SnapshotArchive)
        → Finds command.sync_run_id
            (register_snapshot p r command attempt retry context read archive)
    Finds-register archive =
        Ends-then Anywhere (IsFound command.sync_run_id) (IsFound command.sync_run_id)
          (create_snapshot (snapshot_draft p r command attempt retry context read archive))
          (λ s. succeed >>= λ _. note >>= λ _. pure s)
          (Finds-create command.sync_run_id
            (snapshot_draft p r command attempt retry context read archive) refl)
          λ s.
            Ends-bind (IsFound command.sync_run_id s) (IsFound command.sync_run_id) succeed
              (λ _. note >>= λ _. pure s)
              (IsFound-mark_succeeded command.sync_run_id s context.connection_id
                command.sync_run_id read.commit_sha attempt.now)
              λ _.
                Ends-bind (IsFound command.sync_run_id s) (IsFound command.sync_run_id) note
                  (λ _. pure s)
                  (IsFound-record_success command.sync_run_id s command.workspace_id
                    context.connection_id attempt.now)
                  (λ _. IsFound-pure command.sync_run_id s)
      where
        succeed : Session RepositorySyncRun
        succeed =
            mark_succeeded context.connection_id command.sync_run_id read.commit_sha attempt.now

        note : Session RepositoryConnection
        note = record_snapshot_success command.workspace_id context.connection_id attempt.now

    Finds-write_snapshot :
        (archive : SnapshotArchive)
        → Finds command.sync_run_id (write_snapshot p r command attempt retry context read archive)
    unfolding write_snapshot
    Finds-write_snapshot archive =
        Ends-scope Anywhere (IsFound command.sync_run_id)
          (ensure >>= register_if_current p r command attempt retry context read archive)
          (Ends-bind Anywhere (IsFound command.sync_run_id) ensure
            (register_if_current p r command attempt retry context read archive) (λ db h. tt)
            λ active.
              Ends-if Anywhere (IsFound command.sync_run_id) (not (active.id == read.scope_rule.id))
                (raise scope_changed_error)
                (register_snapshot p r command attempt retry context read archive)
                (Ends-raise Anywhere (IsFound command.sync_run_id) scope_changed_error)
                (Finds-register archive))
      where
        ensure : Session CollectionScopeRuleVersion
        ensure =
            ensure_default_scope_rule_version attempt.scope_uuid command.workspace_id
              context.connection_id command.workspace_id

    Finds-retry_or_fail :
        (next : Option (Session CodeSnapshot))
        → ((again : Session CodeSnapshot) → next ≡ some again → Finds command.sync_run_id again)
        → Finds command.sync_run_id (retry_or_fail p r command attempt retry context read next)
    Finds-retry_or_fail none finds =
        Finds-fail command.sync_run_id command SyncFailureCode.mirror_sync_failed _ none
          attempt.failed_at
    Finds-retry_or_fail (some again) finds = finds again refl

    Finds-fail_write :
        (x : Error)
        → Finds command.sync_run_id (fail_write p r command attempt retry context read x)
    Finds-fail_write x =
        Finds-fail command.sync_run_id command SyncFailureCode.snapshot_write_failed _ none
          attempt.failed_at

    Finds-on_write_error :
        (x : Error)
        → Finds command.sync_run_id (on_write_error p r command attempt retry context read x)
    Finds-on_write_error scope_changed_error = Finds-retry_or_fail retry again_finds
    Finds-on_write_error (problem code) =
        Ends-raise Anywhere (IsFound command.sync_run_id) (problem code)
    Finds-on_write_error integrity_error =
        Finds-load command.sync_run_id
          (existing_or_raise p r command attempt retry context read integrity_error) answers
      where
        answers :
            (db : Database) (found : Option CodeSnapshot)
            → find? (is_of_run command.sync_run_id) db.snapshots ≡ found
            → (s : CodeSnapshot)
            → (existing_or_raise p r command attempt retry context read integrity_error found db).0
              ≡ ok s
            → IsFound command.sync_run_id s
                (existing_or_raise p r command attempt retry context read integrity_error found
                  db).1
        answers db none seen s e = cc
        answers db (some t) seen s e = cc
    Finds-on_write_error lookup_error = Finds-fail_write lookup_error
    Finds-on_write_error runtime_error = Finds-fail_write runtime_error
    Finds-on_write_error value_error = Finds-fail_write value_error
    Finds-on_write_error type_error = Finds-fail_write type_error
    Finds-on_write_error git_auth_error = Finds-fail_write git_auth_error
    Finds-on_write_error git_ref_not_found_error = Finds-fail_write git_ref_not_found_error

    Finds-store_and_write :
        (entries : List (SnapshotArchiveEntryDraft Rest))
        → Finds command.sync_run_id (store_and_write p r command attempt retry context read entries)
    Finds-store_and_write entries =
        Ends-bind Anywhere (IsFound command.sync_run_id)
          (catch (store_archive p r command attempt retry context read entries)
            (fail_store p r command attempt retry context read))
          (λ archive.
            catch (write_snapshot p r command attempt retry context read archive)
              (on_write_error p r command attempt retry context read))
          (λ db h. tt)
          λ archive.
            Ends-catch Anywhere (IsFound command.sync_run_id)
              (write_snapshot p r command attempt retry context read archive)
              (on_write_error p r command attempt retry context read) (λ db h. tt)
              (Finds-write_snapshot archive) Finds-on_write_error

    Finds-fail_empty :
        (text : String)
        → Finds command.sync_run_id
            (fail_empty_snapshot_build command attempt context text retry read.scope_rule)
    unfolding fail_empty_snapshot_build
    Finds-fail_empty text =
        Ends-bind Anywhere (IsFound command.sync_run_id)
          (session_scope (check_scope command attempt context text retry read.scope_rule))
          (end_empty command attempt context text retry retry) (λ db h. tt) (ends retry again_finds)
      where
        ends :
            (next : Option (Session CodeSnapshot))
            → ((again : Session CodeSnapshot) → next ≡ some again → Finds command.sync_run_id again)
            → (should_retry : Bool)
            → Finds command.sync_run_id
                (end_empty command attempt context text retry next should_retry)
        ends none finds should_retry =
            Ends-if Anywhere (IsFound command.sync_run_id) should_retry _ _
              (Finds-fail command.sync_run_id command SyncFailureCode.mirror_sync_failed _ none
                attempt.failed_at)
              (Ends-raise Anywhere (IsFound command.sync_run_id) _)
        ends (some again) finds should_retry =
            Ends-if Anywhere (IsFound command.sync_run_id) (not should_retry) _ _
              (Ends-raise Anywhere (IsFound command.sync_run_id) _) (finds again refl)

    Finds-build_from : Finds command.sync_run_id (build_from p r command attempt retry context read)
    Finds-build_from =
        Ends-if Anywhere (IsFound command.sync_run_id) (is_empty read.materialized.entries) _ _
          (Finds-fail_empty _)
          (Ends-if Anywhere (IsFound command.sync_run_id) (is_empty filtered) _ _
            (Finds-fail_empty _) (Finds-store_and_write filtered))
      where
        filtered : List (SnapshotArchiveEntryDraft Rest)
        filtered =
            filter_snapshot_entries r (rule_set_from_scope_rule read.scope_rule)
              read.materialized.entries

  Finds-build_with :
      (credential : Option ActiveCredential)
      → Finds command.sync_run_id (build_with p r command attempt retry context credential)
  Finds-build_with none =
      Finds-fail command.sync_run_id command SyncFailureCode.auth_failed _
        (some RepositoryConnectionStatus.reauth_required) attempt.failed_at
  Finds-build_with (some credential) =
      Ends-bind Anywhere (IsFound command.sync_run_id)
        (read_or_fail p attempt command context credential)
        (build_from p r command attempt retry context) (λ db h. tt) Finds-build_from

  Finds-build_new : Finds command.sync_run_id (build_new p r command attempt retry context)
  Finds-build_new =
      Ends-bind Anywhere (IsFound command.sync_run_id)
        (mark_if_pending p r command attempt retry context)
        (λ _. build_with p r command attempt retry context context.credential) (λ db h. tt)
        (λ _. Finds-build_with context.credential)

  Finds-build_in :
      (again : Bool) → Finds command.sync_run_id (build_in p r command attempt retry context again)
  Finds-build_in again =
      Ends-if Anywhere (IsFound command.sync_run_id)
        (context.sync_run_status == SyncRunStatus.succeeded) _ _
        (Finds-load command.sync_run_id (require lookup_error)
          (λ db found seen s e. requires db found seen s e))
        (Ends-if Anywhere (IsFound command.sync_run_id)
          (context.sync_run_status == SyncRunStatus.running && again) _ _ Finds-build_new
          (Ends-if Anywhere (IsFound command.sync_run_id)
            (not (context.sync_run_status == SyncRunStatus.pending)) _ _
            (Ends-raise Anywhere (IsFound command.sync_run_id) _) Finds-build_new))
    where
      requires :
          (db : Database) (found : Option CodeSnapshot)
          → find? (is_of_run command.sync_run_id) db.snapshots ≡ found
          → (s : CodeSnapshot) → (require lookup_error found db).0 ≡ ok s
          → IsFound command.sync_run_id s (require lookup_error found db).1
      requires db none seen s e = cc
      requires db (some t) seen s e = cc

module _ {Rest : Type 0} (p : Platform) (r : PathRules) (command : BuildCodeSnapshotCommand)
    (attempts : ℕ → Attempt Rest) where
  Finds-build_once :
      (n : ℕ) (retry : Option (Session CodeSnapshot))
      → ((again : Session CodeSnapshot) → retry ≡ some again → Finds command.sync_run_id again)
      → (again : Bool) → Finds command.sync_run_id (build_once p r command (attempts n) retry again)
  unfolding build_once
  Finds-build_once n retry finds again =
      Ends-bind Anywhere (IsFound command.sync_run_id) (load_snapshot_context command)
        (λ context. build_in p r command (attempts n) retry context again) (λ db h. tt)
        λ context. Finds-build_in p r command (attempts n) retry finds context again

  Finds-build :
      (n : ℕ) (again : Bool)
      → Finds command.sync_run_id (build_code_snapshot p r command attempts n again)
  unfolding build_code_snapshot
  Finds-build zero again = Finds-build_once 0 none (λ next e. cc) again
  Finds-build (suc n) again =
      Finds-build_once (suc n) (some (build_code_snapshot p r command attempts n true))
        (λ next e.
          let same : next ≡ build_code_snapshot p r command attempts n true = cc in
          rw same (Finds-build n true))
        again

-- Where the building of a snapshot answers, whether it stored one, found the one of an earlier run of
-- the task or lost against another worker, it answers the snapshot that is found for its sync run.
pub built-IsFound :
    {Rest : Type 0} (p : Platform) (r : PathRules) (command : BuildCodeSnapshotCommand)
    (attempts : ℕ → Attempt Rest) (n : ℕ) (again : Bool) (db : Database) (s : CodeSnapshot)
    → (build_code_snapshot p r command attempts n again db).0 ≡ ok s
    → IsFound command.sync_run_id s (build_code_snapshot p r command attempts n again db).1
built-IsFound p r command attempts n again db s e =
    Finds-build p r command attempts n again db tt s e
