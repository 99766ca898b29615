-- ===== src/Tests/Replays.antt =====
-- A delivery that arrives again.
use tci.Prelude.{◌≡◌, refl, false, some, none, [], ◌∷◌}
use tci.Models.Enums.Types.{
  ProcessingDecision, EventProcessingStatus, SignatureStatus, RefType, SyncRunStatus,
}
use tci.Models.Rows.{RepositoryEvent}
use tci.Session.{Database, ok}
use tci.Webhooks.TokenVerifier.{GitLabTokenVerificationOutcome, unverified}
use tci.Webhooks.GitlabEvents.{ParsedProviderEvent, push_event}
use tci.Services.Delivery.{is_retryable_delivery}
use tci.Services.GitlabEvent.Rejection.{rejected_draft}
use tci.Services.GitlabEvent.Process.{process_matching}
use tci.Services.Safety.Replay.{replay_changes_no_run}
use tci.Tests.{app, platform, moment, push_command, push_payload, with_runs, run_of}

abbrev completed_event : RepositoryEvent
completed_event =
    record (rejected_draft platform moment (push_command none) SignatureStatus.verified) {
      id = 77;
      processing_decision = ProcessingDecision.duplicate_head;
      processing_status = EventProcessingStatus.completed;
    }

abbrev seen : Database
seen = record (with_runs (run_of 21 SyncRunStatus.pending ∷ [])) { events = completed_event ∷ [] }

abbrev pushed : ParsedProviderEvent
pushed = push_event (λ v. "{}") push_payload 9 RefType.branch "main"

abbrev accepted : GitLabTokenVerificationOutcome
accepted = record (unverified SignatureStatus.verified) { verified_secret_revision_id = some 3 }

not_again : (is_retryable_delivery moment.clock 1 (some completed_event) seen).0 ≡ ok false
unfolding is_retryable_delivery
not_again = refl

replay_changes_no_run_example :
    (process_matching platform moment
      (push_command (some "s3cret"))
      app
      accepted
      pushed
      seen).1.sync_runs
    ≡ seen.sync_runs
replay_changes_no_run_example =
    replay_changes_no_run platform moment (push_command (some "s3cret")) accepted pushed app seen
      completed_event refl not_again
