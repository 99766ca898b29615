-- ===== src/Tests/Github.antt =====
-- GitHub deliveries, run from the signature to the answer.
use tci.Prelude.{
  ◌≡◌, ◌↔◌, refl, true, false, ◌&&◌, some, none, [], ◌∷◌, any, String, ◌==◌, string_eq,
  if◌then◌else◌, arith,
}
use tci.Prelude.Text.{len}
use tci.Models.Enums.Types.{SyncRunStatus, RepositoryProvider, ProviderEventType, RefType}
use tci.Models.Rows.{RepositoryConnection}
use tci.Persistence.SyncRuns.Succeeded.{HasSucceeded}
use tci.Persistence.Secrets.{is_candidate}
use tci.Persistence.Table.{no_clash, update_where}
use tci.Persistence.Events.{event_clash}
use tci.Session.{Database, ok, err, problem, ProblemCode}
use tci.Webhooks.Json.{member, no_members, text, object}
use tci.Webhooks.GithubEvents.{read_github_push_ref}
use tci.Webhooks.GithubEvents.Laws.{read_github_push_ref-roundtrip}
use tci.Webhooks.GithubDecision.{GitHubDecisionInput, decide_github_event_processing}
use tci.Webhooks.GithubDecision.Laws.{github_queues_iff, AsksForGithubSync}
use tci.Services.GitlabEvent.Process.Laws.{IsDispatchable}
use tci.Services.GithubEvent.{GitHubPlatform, ProcessGitHubEventCommand, ProcessGitHubEventResult}
use tci.Services.GithubEvent.Verification.{SecretVerificationOutcome, verify_signature}
use tci.Services.GithubEvent.Signed.{signs, signed_by_live_secret}
use tci.Services.GithubEvent.Process.{process_github_event}
use tci.Services.GithubEvent.Process.Laws.{github_answer-IsDispatchable}
use tci.Services.Safety.Github.{github_keeps_succeeded}
use tci.Models.Enums.Types.{SignatureStatus, WebhookSecretRevisionStatus}
use tci.Tests.{app, platform, moment, with_runs, run_of}

abbrev hub : RepositoryConnection
hub = record app { provider = RepositoryProvider.github_cloud; provider_project_path = none }

abbrev hub_db : Database
hub_db = record (with_runs []) { connections = hub ∷ [] }

abbrev digest : String
digest = "aaaaaaaaaaaaaaaaaaaaaaaaaaaaaaaaaaaaaaaaaaaaaaaaaaaaaaaaaaaaaaaa"

abbrev signed_header : String
signed_header = "sha256=aaaaaaaaaaaaaaaaaaaaaaaaaaaaaaaaaaaaaaaaaaaaaaaaaaaaaaaaaaaaaaaa"

abbrev hub_platform : GitHubPlatform
hub_platform = record {
  platform = platform;
  hmac_hexdigest = λ secret body. if secret == "s3cret" then digest else "";
  equal_digests = λ a b. a == b;
}

abbrev hub_push : String → ProcessGitHubEventCommand
hub_push header = record {
  connection_id = 1;
  provider_delivery_id = "gh-1";
  provider_event_name = "push";
  signature_header = some header;
  raw_body = "{}";
  payload = member "ref" (text "refs/heads/main") (
      member "after" (text "c0ffee") (
        member "repository" (object (member "full_name" (text "team/app") no_members)) no_members));
}

abbrev hub_answer : ProcessGitHubEventResult
hub_answer = record {
  event_id = 10;
  provider_delivery_id = "gh-1";
  sync_run_id = some 11;
  should_enqueue_sync = true;
  dispatch_event_id = some 10;
}

hub_push_queues :
    (process_github_event hub_platform moment (hub_push signed_header) hub_db).0 ≡ ok hub_answer
unfolding process_github_event no_clash update_where event_clash
hub_push_queues = refl

github_answer-IsDispatchable_example : IsDispatchable (some 11) true (some 10)
github_answer-IsDispatchable_example =
    github_answer-IsDispatchable hub_platform moment (hub_push signed_header) hub_db hub_answer
      hub_push_queues

odd_signature_fails :
    (process_github_event hub_platform moment (hub_push "sha1=abc") hub_db).0
    ≡ err (problem ProblemCode.webhook_signature_invalid)
unfolding process_github_event no_clash update_where event_clash
odd_signature_fails = refl

abbrev hub_done : Database
hub_done = record hub_db { sync_runs = run_of 21 SyncRunStatus.succeeded ∷ [] }

github_keeps_succeeded_example :
    HasSucceeded 1 21
      (process_github_event hub_platform moment (hub_push signed_header) hub_done).1.sync_runs
github_keeps_succeeded_example =
    github_keeps_succeeded hub_platform moment (hub_push signed_header) 1 21 hub_done refl

abbrev hub_outcome : SecretVerificationOutcome
hub_outcome = record {
  signature_status = SignatureStatus.verified;
  verified_secret_revision_id = some 3;
  verified_secret_revision_status = some WebhookSecretRevisionStatus.active;
}

hub_verifies :
    (verify_signature hub_platform 100 (hub_push signed_header) hub_db).0 ≡ ok hub_outcome
unfolding verify_signature
hub_verifies = refl

signed_by_live_secret_example :
    any
      (λ r. is_candidate 1 100 r && signs hub_platform (hub_push signed_header) (some 3) r)
      hub_db.secrets
    ≡ true
signed_by_live_secret_example =
    signed_by_live_secret hub_platform (λ a b. (string_eq.test_iff a b).0) 100
      (hub_push signed_header) hub_db hub_outcome hub_verifies refl

abbrev push_input : GitHubDecisionInput
push_input = record {
  provider_event_type = ProviderEventType.push;
  provider_action = none;
  target_head_sha = some "c0ffee";
  delivery_already_seen = false;
  latest_cursor_head_sha = none;
  resolved_current_head_sha = some "c0ffee";
  retryable_delivery = false;
}

github_queues_iff_example :
    ((decide_github_event_processing push_input).should_queue_sync ≡ true)
    ↔ AsksForGithubSync push_input
github_queues_iff_example = github_queues_iff push_input

read_github_push_ref-roundtrip_example :
    (read_github_push_ref (text "refs/heads/main") ≡ ok (RefType.branch, "main"))
    × (read_github_push_ref (text "refs/tags/main") ≡ ok (RefType.tag, "main"))
unfolding len
read_github_push_ref-roundtrip_example = read_github_push_ref-roundtrip "main" refl (omega arith)
