-- ===== src/Services/Snapshot/Failure.antt =====
-- `_classify_snapshot_failure`, `_fail_snapshot_build` and `_fail_empty_snapshot_build` of
-- domain/services/build_code_snapshot.py.
use tci.Prelude.{
  Bool, false, not, Option, none, some, String, if◌then◌else◌, ◌==◌, nat_eq, string_eq, is_some,
}
use tci.Models.Enums.Types.{SyncFailureCode, RepositoryConnectionStatus}
use tci.Models.Rows.{Instant, CollectionScopeRuleVersion, CodeSnapshot}
use tci.Session.{
  Session, Error, ProblemCode, pure, raise, session_scope, ◌>>=◌, ◌>>◌, problem, git_auth_error,
  git_ref_not_found_error,
}
use tci.Persistence.Connections.{record_sync_failure}
use tci.Persistence.ScopeRules.{ensure_default_scope_rule_version}
use tci.Persistence.SyncRuns.Operations.{mark_failed}
use tci.Services.Snapshot.{BuildCodeSnapshotCommand, Attempt, SnapshotBuildContext}

-- The attribute `problem_code` of an exception.
abbrev pub problem_code : Error → Option ProblemCode
problem_code (problem code) = some code
problem_code git_auth_error = some ProblemCode.connection_auth_failed
problem_code git_ref_not_found_error = some ProblemCode.default_ref_not_found
problem_code _ = none

-- `str(error) or message`
abbrev pub text_or : String → String → String
text_or text message = if text == "" then message else text

-- The code and the message of the failed run, and the status that its connection gets.
pub record Classified : Type 0 where
  pub failure_code : SyncFailureCode
  pub connection_status : Option RepositoryConnectionStatus
  pub failure_message : String

abbrev pub auth_failure : String → Classified
auth_failure text = record {
  failure_code = SyncFailureCode.auth_failed;
  connection_status = some RepositoryConnectionStatus.reauth_required;
  failure_message = text_or text "저장소 자격 증명 검증에 실패했습니다.";
}

abbrev pub mirror_failure : String → Classified
mirror_failure text = record {
  failure_code = SyncFailureCode.mirror_sync_failed;
  connection_status = none;
  failure_message = text;
}

-- `_classify_snapshot_failure` of the error's code, `str` of it and its detail. An error of another
-- code than the three is a RepositoryConnectionProblem, and only such an error has a detail.
abbrev pub classify_snapshot_failure : Option ProblemCode → String → String → Classified
classify_snapshot_failure none text detail = mirror_failure (text_or text "Git mirror 동기화에 실패했습니다.")
classify_snapshot_failure (some ProblemCode.connection_auth_failed) text detail = auth_failure text
classify_snapshot_failure (some ProblemCode.default_ref_not_found) text detail = record {
  failure_code = SyncFailureCode.ref_not_found;
  connection_status = some RepositoryConnectionStatus.ref_missing;
  failure_message = text_or text "기본 분석 대상 ref를 찾을 수 없습니다.";
}
classify_snapshot_failure (some ProblemCode.invalid_input) text detail =
    mirror_failure (text_or text "스냅샷 생성 요청이 유효하지 않습니다.")
classify_snapshot_failure (some _) text detail = auth_failure detail

-- The problem that is raised for a failure.
abbrev pub problem_of : SyncFailureCode → ProblemCode
problem_of SyncFailureCode.auth_failed = ProblemCode.connection_auth_failed
problem_of SyncFailureCode.ref_not_found = ProblemCode.default_ref_not_found
problem_of SyncFailureCode.no_included_files = ProblemCode.no_included_files
problem_of _ = ProblemCode.invalid_input

module _ (command : BuildCodeSnapshotCommand) where
  -- A failed run, and its connection's failure.
  abbrev pub record_failure :
      SyncFailureCode → String → Option RepositoryConnectionStatus → Instant → Session Unit
  record_failure code message status failed_at = do
    mark_failed command.connection_id command.sync_run_id code message failed_at
    record_sync_failure command.workspace_id command.connection_id failed_at status
    pure tt

  unfoldable pub fail_snapshot_build :
      {A : Type 0}
      → SyncFailureCode
      → String
      → Option RepositoryConnectionStatus
      → Instant
      → Session A
  unfolding mark_failed record_sync_failure session_scope
  fail_snapshot_build code message status failed_at = do
    session_scope (record_failure code message status failed_at)
    raise (problem (problem_of code))

  module _ {Rest : Type 0} (attempt : Attempt Rest) (context : SnapshotBuildContext)
      (message : String) (retry : Option (Session CodeSnapshot)) where
    -- `should_retry`, with what is recorded where the scope has not changed.
    abbrev pub settle_empty : CollectionScopeRuleVersion → CollectionScopeRuleVersion → Session Bool
    settle_empty scope_rule active =
        if not (active.id == scope_rule.id) then pure (is_some retry) else do
          record_failure SyncFailureCode.no_included_files message none attempt.failed_at
          pure false

    abbrev pub check_scope : CollectionScopeRuleVersion → Session Bool
    check_scope scope_rule = do
      active ←
          ensure_default_scope_rule_version attempt.scope_uuid command.workspace_id
            context.connection_id command.workspace_id
      settle_empty scope_rule active

    abbrev pub end_empty : Option (Session CodeSnapshot) → Bool → Session CodeSnapshot
    end_empty (some again) should_retry =
        if not should_retry then raise (problem ProblemCode.no_included_files) else again
    end_empty none should_retry =
        if should_retry
        then fail_snapshot_build SyncFailureCode.mirror_sync_failed
            "범위 규칙이 스냅샷 생성 중 변경되었습니다. 다시 시도하세요." none attempt.failed_at
        else raise (problem ProblemCode.no_included_files)

    -- `_fail_empty_snapshot_build`; `retry` is the next attempt, where one is left.
    unfoldable pub fail_empty_snapshot_build : CollectionScopeRuleVersion → Session CodeSnapshot
    unfolding ensure_default_scope_rule_version mark_failed record_sync_failure session_scope
        fail_snapshot_build
    fail_empty_snapshot_build scope_rule = do
      should_retry ← session_scope (check_scope scope_rule)
      end_empty retry should_retry
