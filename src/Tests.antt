-- ===== src/Tests.antt =====
-- Concrete rows, deliveries and a platform, and the theorems applied to them.
mod Deliveries
mod Runs
mod Texts
mod Secrets
mod Cursors
mod Replays
mod Routes
mod Github
mod Queue
mod Snapshots
mod DefaultRefs
use tci.Prelude.{ℕ, Option, none, some, String, List, [], ◌∷◌, ◌==◌, string_eq}
use tci.Models.Enums.Types.{
  RepositoryProvider, RepositoryTransport, DefaultRefType, RepositoryConnectionStatus,
  WebhookHealthState, WebhookSecretRevisionStatus, ProviderEventIdempotencySource, SyncTriggerType,
  RefType, SyncRunStatus,
}
use tci.Models.Rows.{RepositoryConnection, WebhookSecretRevision, RepositorySyncRun}
use tci.Session.{Database, empty_database, ok}
use tci.Webhooks.Json.{Members, member, no_members, text, object, array, item, no_items}
use tci.Services.Platform.{Platform, Moment}
use tci.Services.GitlabEvent.{ProcessGitLabEventCommand}

abbrev pub app : RepositoryConnection
app = record {
  id = 1;
  workspace_id = 2;
  planning_input_reference_id = 60;
  provider = RepositoryProvider.gitlab_self_managed;
  remote_url = "ssh://git@gitlab.local/team/app";
  provider_instance_url = some "https://gitlab.local";
  transport = RepositoryTransport.ssh;
  repository_owner = "team";
  repository_name = "app";
  provider_project_path = some "team/app";
  default_ref_type = DefaultRefType.branch;
  default_ref_name = "main";
  status = RepositoryConnectionStatus.active;
  active_webhook_secret_revision_id = some 3;
  active_scope_rule_version_id = none;
  webhook_health_state = WebhookHealthState.healthy;
  last_webhook_rejection_reason = none;
  last_webhook_rejected_at = none;
  last_verified_at = none;
  last_successful_snapshot_at = none;
  last_failed_sync_at = none;
  last_processed_event_id = none;
  last_processed_event_at = none;
}

abbrev pub token : WebhookSecretRevision
token = record {
  id = 3;
  connection_id = 1;
  encrypted_secret = "s3cret";
  status = WebhookSecretRevisionStatus.active;
  grace_until = none;
  created_at = 5;
}

abbrev pub run_of : ℕ → SyncRunStatus → RepositorySyncRun
run_of id status = record {
  id = id;
  connection_id = 1;
  trigger_event_id = none;
  trigger_type = SyncTriggerType.webhook_push;
  requested_ref_type = RefType.branch;
  requested_ref_name = "main";
  requested_ref_key = "main";
  resolved_commit_sha = none;
  status = status;
  failure_code = none;
  failure_message = none;
  started_at = 6;
  dispatch_enqueued_at = none;
  completed_at = none;
}

abbrev pub with_runs : List RepositorySyncRun → Database
with_runs runs = record empty_database {
  connections = app ∷ [];
  secrets = token ∷ [];
  sync_runs = runs;
}

abbrev pub platform : Platform
platform = record {
  sha256_hexdigest = λ s. s;
  compare_digest = λ a b. ok (a == b);
  fernet_decrypt = λ s. some s;
  resolve = λ url ref_type name. ok "c0ffee";
  show_container = λ v. "{}";
  isdecimal = λ s. s == "7";
  int = λ s. 7;
}

abbrev pub moment : Moment
moment = record {
  now = 100;
  clock = 101;
  server_now = 102;
  event_uuid = 10;
  run_uuid = 11;
  cursor_uuid = 12;
  commit_uuid = λ sha. 13;
}

abbrev pub push_payload : Members
push_payload = member "object_kind" (text "push") (
    member "ref" (text "refs/heads/main") (
      member "checkout_sha" (text "c0ffee") (
        member "project" (object (member "path_with_namespace" (text "team/app") no_members)) (
          member "commits" (array (item (object (member "id" (text "c0ffee") no_members)) no_items))
            no_members))))

abbrev pub push_command : Option String → ProcessGitLabEventCommand
push_command token_header = record {
  connection_id = 1;
  provider_delivery_id = "delivery-1";
  provider_event_idempotency_source = ProviderEventIdempotencySource.delivery_header;
  provider_event_name = "Push Hook";
  token_header = token_header;
  raw_body = "{}";
  payload = push_payload;
}
