-- ===== src/Services/Safety/Snapshot.antt =====
-- The building of a snapshot, with respect to the sync runs.
pub mod Remote
pub mod Build
use tci.Prelude.{
  ◌≡◌, refl, Bool, true, false, not, Option, none, some, List, String, ◌==◌, nat_eq, Bool-cases,
  inl, inr, is_some, ◌&&◌, ◌∷◌,
}
use tci.Models.Enums.Types.{SyncFailureCode, RepositoryConnectionStatus}
use tci.Models.Rows.{
  Uuid, Instant, RepositorySyncRun, RepositoryConnection, CollectionScopeRuleVersion, CodeSnapshot,
}
use tci.Session.{
  Session, Database, Error, Result, ok, err, ProblemCode, pure, raise, require, lift, session_scope,
  ◌>>=◌, ◌>>◌, problem, lookup_error,
}
use tci.Session.Rules.{Preserves-if, Preserves-scope}
use tci.Persistence.Table.{no_clash}
use tci.Persistence.Connections.{
  get_owned, record_sync_failure, record_snapshot_success, write_connections,
}
use tci.Persistence.ScopeRules.{
  scope_rule_clash, create_scope_rule, find_scope_rule, default_scope_rule, add_default_scope_rule,
  active_scope_rule, scope_rule_of, ensure_default_scope_rule_version,
}
use tci.Persistence.Snapshots.{create_snapshot, snapshot_clash, file_clash}
use tci.Persistence.SyncRuns.Operations.{mark_failed}
use tci.Services.Safety.{Safe}
use tci.Services.Safety.Tables.{Safe-bind, Safe-require, Safe-set_owned}
use tci.Services.Snapshot.{BuildCodeSnapshotCommand, Attempt, SnapshotBuildContext}
use tci.Services.Snapshot.Failure.{
  record_failure, fail_snapshot_build, settle_empty, check_scope, end_empty,
  fail_empty_snapshot_build,
}

module _ (J : List RepositorySyncRun → Type 0) where
  pub Safe-lifted :
      {A B : Type 0} (r : Result A) (f : A → Session B)
      → ((a : A) → Safe J (f a))
      → Safe J (lift r >>= f)
  Safe-lifted r f = Safe-bind J (lift r) f (λ db h. h)

  pub Safe-scope : {A : Type 0} (m : Session A) → Safe J m → Safe J (session_scope m)
  Safe-scope m = Preserves-scope (λ db. J db.sync_runs) m

  Safe-create_scope_rule : (rule : CollectionScopeRuleVersion) → Safe J (create_scope_rule rule)
  unfolding create_scope_rule
  Safe-create_scope_rule rule db h =
      elim (Bool-cases (no_clash scope_rule_clash (rule ∷ db.scope_rules))) [
        | inl fine ↦ rw fine h
        | inr broken ↦ rw broken h
      ]

  pub Safe-ensure_default_scope_rule :
      (u w c by : Uuid) → Safe J (ensure_default_scope_rule_version u w c by)
  unfolding ensure_default_scope_rule_version get_owned write_connections find_scope_rule
  Safe-ensure_default_scope_rule u w c by =
      Safe-bind J (get_owned w c) (scope_rule_of u w c by) (λ db h. h) owned
    where
      active :
          (connection : RepositoryConnection) (id : Option Uuid)
          → Safe J (active_scope_rule u w c by connection id)
      active connection none =
          Safe-bind J (create_scope_rule (default_scope_rule u w c by connection)) _
            (Safe-create_scope_rule (default_scope_rule u w c by connection)) (λ rule db h. h)
      active connection (some id) =
          Safe-bind J (find_scope_rule id) (require lookup_error) (λ db h. h)
            (Safe-require J lookup_error)

      owned : (found : Option RepositoryConnection) → Safe J (scope_rule_of u w c by found)
      owned none = λ db h. h
      owned (some connection) = active connection connection.active_scope_rule_version_id

  pub Safe-create_snapshot : (draft : CodeSnapshot) → Safe J (create_snapshot draft)
  unfolding create_snapshot
  Safe-create_snapshot draft db h =
      elim (Bool-cases
        (no_clash snapshot_clash (draft ∷ db.snapshots) && no_clash file_clash draft.files)) [
          | inl fine ↦ rw fine h
          | inr broken ↦ rw broken h
        ]

  pub Safe-record_snapshot_success :
      (w c : Uuid) (at : Instant) → Safe J (record_snapshot_success w c at)
  unfolding record_snapshot_success
  Safe-record_snapshot_success w c at = Safe-set_owned J w c _

  Safe-record_sync_failure :
      (w c : Uuid) (at : Instant) (status : Option RepositoryConnectionStatus)
      → Safe J (record_sync_failure w c at status)
  unfolding record_sync_failure
  Safe-record_sync_failure w c at status = Safe-set_owned J w c _

  module _
      (fails : (c i : Uuid) (code : SyncFailureCode) (text : String) (at : Instant)
        → Safe J (mark_failed c i code text at))
      (command : BuildCodeSnapshotCommand) where
    Safe-record_failure :
        (code : SyncFailureCode) (text : String) (status : Option RepositoryConnectionStatus)
        (at : Instant)
        → Safe J (record_failure command code text status at)
    Safe-record_failure code text status at =
        Safe-bind J (mark_failed command.connection_id command.sync_run_id code text at) _
          (fails command.connection_id command.sync_run_id code text at)
          λ _.
            Safe-bind J (record_sync_failure command.workspace_id command.connection_id at status)
              (λ _. pure tt)
              (Safe-record_sync_failure command.workspace_id command.connection_id at status)
              (λ _ db h. h)

    pub Safe-fail_snapshot_build :
        (A : Type 0) (code : SyncFailureCode) (text : String)
        (status : Option RepositoryConnectionStatus) (at : Instant)
        → Safe J (fail_snapshot_build command {A = A} code text status at)
    unfolding fail_snapshot_build
    Safe-fail_snapshot_build A code text status at =
        Safe-bind J (session_scope (record_failure command code text status at)) (λ _. raise _)
          (Safe-scope (record_failure command code text status at)
            (Safe-record_failure code text status at))
          (λ _ db h. h)

    pub Safe-fail_empty :
        {Rest : Type 0} (attempt : Attempt Rest) (context : SnapshotBuildContext) (text : String)
        (retry : Option (Session CodeSnapshot))
        → ((again : Session CodeSnapshot) → retry ≡ some again → Safe J again)
        → (rule : CollectionScopeRuleVersion)
        → Safe J (fail_empty_snapshot_build command attempt context text retry rule)
    unfolding fail_empty_snapshot_build
    Safe-fail_empty attempt context text retry again_safe rule =
        Safe-bind J (session_scope (check_scope command attempt context text retry rule))
          (end_empty command attempt context text retry retry)
          (Safe-scope (check_scope command attempt context text retry rule) checks)
          (ends retry again_safe)
      where
        settles :
            (active : CollectionScopeRuleVersion)
            → Safe J (settle_empty command attempt context text retry rule active)
        settles active =
            Preserves-if (λ db. J db.sync_runs) (not (active.id == rule.id)) _ _ (λ db h. h)
              (Safe-bind J
                (record_failure command SyncFailureCode.no_included_files text none
                  attempt.failed_at)
                (λ _. pure false)
                (Safe-record_failure SyncFailureCode.no_included_files text none attempt.failed_at)
                (λ _ db h. h))

        checks : Safe J (check_scope command attempt context text retry rule)
        checks =
            Safe-bind J
              (ensure_default_scope_rule_version attempt.scope_uuid command.workspace_id
                context.connection_id command.workspace_id)
              (settle_empty command attempt context text retry rule)
              (Safe-ensure_default_scope_rule attempt.scope_uuid command.workspace_id
                context.connection_id command.workspace_id)
              settles

        ends :
            (r : Option (Session CodeSnapshot))
            → ((again : Session CodeSnapshot) → r ≡ some again → Safe J again)
            → (should_retry : Bool)
            → Safe J (end_empty command attempt context text retry r should_retry)
        ends none safe should_retry =
            Preserves-if (λ db. J db.sync_runs) should_retry _ _
              (Safe-fail_snapshot_build CodeSnapshot SyncFailureCode.mirror_sync_failed _ none
                attempt.failed_at)
              (λ db h. h)
        ends (some again) safe should_retry =
            Preserves-if (λ db. J db.sync_runs) (not should_retry) _ _ (λ db h. h) (safe again refl)
