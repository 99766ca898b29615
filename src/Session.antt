-- ===== src/Session.antt =====
-- infrastructure/persistence/session.py, and the errors that the services raise. An action of a
-- session returns the database as the session sees it, also where it raises: what was flushed
-- before the error is still in the open transaction, until `session_scope` rolls it back.
pub mod Rules
use tci.Prelude.{Bool, true, false, Option, none, some, List, []}
use tci.Models.Rows.{
  RepositoryConnection, WebhookSecretRevision, RepositoryEvent, RepositoryEventCursor,
  RepositorySyncRun, RepositoryCredentialRevision, CollectionScopeRuleVersion, CodeSnapshot,
}

-- `ProblemCode` of api/problem_details.py.
pub data ProblemCode : Type 0 where
  invalid_input unsupported_provider read_write_credential_not_allowed connection_auth_failed
        default_ref_not_found no_included_files webhook_signature_invalid webhook_secret_missing
        webhook_secret_mismatch stale_head_sha_skipped sync_already_active :
      ProblemCode

-- The exceptions. `problem` is RepositoryConnectionProblem, `scope_changed_error` is
-- _ScopeChangedDuringSnapshotWrite; the messages are left out.
pub data Error : Type 0 where
  lookup_error runtime_error value_error type_error integrity_error git_auth_error
        git_ref_not_found_error scope_changed_error :
      Error
  problem : ProblemCode → Error

pub data Result {ℓ} (A : Type ℓ) : Type ℓ where
  ok : A → Result A
  err : Error → Result A

pub record Database : Type 0 where
  pub connections : List RepositoryConnection
  pub secrets : List WebhookSecretRevision
  pub events : List RepositoryEvent
  pub cursors : List RepositoryEventCursor
  pub sync_runs : List RepositorySyncRun
  pub credentials : List RepositoryCredentialRevision
  pub scope_rules : List CollectionScopeRuleVersion
  pub snapshots : List CodeSnapshot

abbrev pub empty_database : Database
empty_database = record {
  connections = [];
  secrets = [];
  events = [];
  cursors = [];
  sync_runs = [];
  credentials = [];
  scope_rules = [];
  snapshots = [];
}

abbrev pub Session : Type 0 → Type 0
Session A = Database → Result A × Database

abbrev pub pure : {A : Type 0} → A → Session A
pure a db = (ok a, db)

abbrev pub raise : {A : Type 0} → Error → Session A
raise e db = (err e, db)

-- A step that reads no table.
abbrev pub lift : {A : Type 0} → Result A → Session A
lift r db = (r, db)

abbrev pub next_step : {A B : Type 0} → (A → Session B) → Result A → Session B
next_step f (ok a) = f a
next_step f (err e) = raise e

infixl 5 ◌>>=◌ ◌>>◌
abbrev pub ◌>>=◌ : {A B : Type 0} → Session A → (A → Session B) → Session B
◌>>=◌ m f db = next_step f (m db).0 (m db).1

abbrev pub ◌>>◌ : {A B : Type 0} → Session A → Session B → Session B
m >> k = m >>= λ _. k

-- `x` of a query's row, or the error where there is no row.
abbrev pub require : {A : Type 0} → Error → Option A → Session A
require e none = raise e
require e (some a) = pure a

-- `_session_scope`: commit where the block returns, roll back and raise again where it raises.
abbrev pub finish : {A : Type 0} → Database → Result A × Database → Result A × Database
finish before (ok a, after) = (ok a, after)
finish before (err e, after) = (err e, before)

unfoldable pub session_scope : {A : Type 0} → Session A → Session A
session_scope body db = finish db (body db)

-- `begin_nested`: a savepoint, released where the block returns.
unfoldable pub begin_nested : {A : Type 0} → Session A → Session A
begin_nested body db = finish db (body db)

-- `try: m` with a handler that turns an error into an action or lets it pass.
abbrev pub catch_step : {A : Type 0} → (Error → Session A) → Result A → Session A
catch_step handler (ok a) = pure a
catch_step handler (err e) = handler e

abbrev pub catch : {A : Type 0} → Session A → (Error → Session A) → Session A
catch m handler db = catch_step handler (m db).0 (m db).1
