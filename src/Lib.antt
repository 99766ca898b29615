-- ===== src/Lib.antt =====
-- The Git repository connection of TCI (pilot-git-repo-connection/src/tci): a workspace connects
-- a repository, providers deliver webhooks for it, and each accepted delivery that moves code
-- ends in a sync run that a worker dispatches. A delivery is verified, parsed, checked against
-- the connection, decided on and recorded, and a sync run of its ref is found, created, or
-- blocked behind the run in progress, all in one transaction. Paths below are from that folder.
--
-- - Models: infrastructure/persistence/models.py, the enumerations (Models/Enums) and the tables'
--   rows (Models/Rows).
-- - Session: infrastructure/persistence/session.py. An action takes the database and returns a
--   result and the database as the open transaction sees it; session_scope and begin_nested put
--   the old one back where the block raises. The errors are values.
-- - Persistence: the repositories of infrastructure/persistence, one module for each table. A
--   table is the list of its rows, SQL's UPDATE and the unique constraints are in
--   Persistence/Table, and a flush that breaks a constraint raises IntegrityError.
--   Persistence/SyncRuns has every operation of repository_sync_run_repository.py, and below it
--   the theorems on claims, releases and the life of a run; Events, Cursors, Secrets,
--   Connections, Credentials, ScopeRules and Snapshots are the other tables.
-- - Webhooks: infrastructure/webhooks/gitlab_token_verifier.py (TokenVerifier),
--   github_signature.py (GithubSignature), gitlab_event_parser.py (GitlabEvents, over the JSON
--   values of Json), github_event_parser.py (GithubEvents), the pure rules of
--   domain/services/process_github_event.py (GithubDecision),
--   domain/services/repository_event_processing.py (Decision), and
--   domain/services/scope_filter_engine.py with default_scope_policy.py (Scope).
-- - Services: domain/services/process_gitlab_event.py. Delivery has its helpers on events and
--   runs, GitlabEvent/Rejection the token check with the preflight, GitlabEvent/Rules its pure
--   rules, GitlabEvent/Recording and GitlabEvent/Queueing what it writes, and GitlabEvent/Process
--   the handler. Safety, Once and Accepted have what deliveries do to the sync runs, to the table
--   of events, and which secrets they accept. RotateSecret is
--   domain/services/rotate_webhook_secret.py. GithubEvent is
--   domain/services/process_github_event.py: Verification is the signature check with the
--   preflight, Rejection, Recording and EnqueueFailure what it writes, Process the handler.
-- - Services/UpdateDefaultRef: domain/services/update_default_ref.py; Services/Credential has the
--   helpers on credentials and refs of repository_connection_support.py.
-- - Services/Snapshot: domain/services/build_code_snapshot.py. Remote is what an attempt reads,
--   Failure what it records of its failures, Build the service with its retry for a changed
--   scope, whose attempts are numbered by the retries left.
-- - Queue: infrastructure/queue/repository_ingestion_tasks.py. RestoreCursor puts back the event
--   cursor of a failed run, Dispatch claims the next run and releases a connection,
--   DispatchFailure is what the failure of a task records, WebhookSync is the task of a webhook's
--   sync run, SnapshotTask that task with its snapshot, and ManualSync the task of a manual run.
-- - Routes: api/routes/gitlab_webhooks.py. RateLimit is the sliding window of the requests in
--   memory, Requests the source key and the bounded body.
-- - Tests: concrete deliveries and runs, and the theorems applied to them.
--
-- The services take as parameters what is not in the repository or is a run of git: SHA-256, the
-- HMAC, the constant time comparison, Fernet, the commit of a remote ref, and Python's str of
-- containers, isdecimal and int (Services/Platform); an attempt at a snapshot takes git, the
-- agent for its credential, the host check, the store of archives, the manifest's writer, and
-- what other sessions commit between the reading of the scope rule and that of the entries
-- (Services/Snapshot); the scope filter takes fnmatch and the methods of texts and paths
-- (Webhooks/Scope). The clock's readings and the identifiers that uuid4 draws are arguments. A
-- UUID and an instant, in microseconds, are numbers of any size; bytes are texts with a character
-- for each. Loops are structural recursion over the lists that the code iterates, so there is no
-- fuel.
--
-- Not modelled: the texts of the exceptions; the columns that no modelled code reads; the foreign
-- keys, the lengths of columns and the check constraints of the events and of the snapshots'
-- paths; row locks and what a concurrent transaction writes between two statements, but for the
-- handlers of IntegrityError, which are there; the absence of a session factory; the rate limiter
-- that Redis keeps; the HTTP answers, the pages, the queue's task for a verification, the removal
-- of archives from the disk, and the access to git.
pub mod Prelude
pub mod Models
pub mod Session
pub mod Persistence
pub mod Webhooks
pub mod Services
pub mod Queue
pub mod Routes
pub mod Tests
