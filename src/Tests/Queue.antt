-- ===== src/Tests/Queue.antt =====
-- The worker's tasks on small tables.
use tci.Prelude.{◌≡◌, refl, Bool, some, none, [], ◌∷◌, Option, find?}
use tci.Models.Enums.Types.{
  SyncRunStatus, ProviderEventIdempotencySource, ProviderEventType, DomainEventType,
  EventTargetKind, SignatureStatus, ProcessingDecision, EventProcessingStatus,
}
use tci.Models.Rows.{Uuid, RepositoryEvent, RepositorySyncRun}
use tci.Session.{Database, Session, ok, raise, runtime_error}
use tci.Persistence.Table.{no_clash, update_where}
use tci.Persistence.SyncRuns.{clash}
use tci.Queue.{Clock, run_webhook_sync}
use tci.Persistence.Cursors.{is_cursor}
use tci.Queue.RestoreCursor.{restore_event_cursor}
use tci.Queue.RestoreCursor.Laws.{restore_event_cursor-IsRestored, IsRestored}
use tci.Queue.Dispatch.{choose_next}
use tci.Queue.Dispatch.Laws.{chosen_once, IsClaimedTask}
use tci.Queue.WebhookSync.{BuiltSnapshot}
use tci.Tests.{with_runs, run_of}

abbrev event_of : Uuid → Option Uuid → RepositoryEvent
event_of id run_id = record {
  id = id;
  connection_id = 1;
  provider_delivery_id = "d";
  provider_event_idempotency_source = ProviderEventIdempotencySource.delivery_header;
  provider_event_type = ProviderEventType.push;
  provider_action = none;
  domain_event_type = DomainEventType.push_received;
  target_kind = EventTargetKind.default_ref;
  target_key = "default_ref";
  target_ref_name = some "main";
  target_head_sha = some "c0ffee";
  occurred_at = 7;
  received_at = 7;
  processed_at = some 7;
  signature_status = SignatureStatus.verified;
  verified_secret_revision_status = none;
  verified_secret_revision_id = none;
  rejection_reason = none;
  processing_decision = ProcessingDecision.queued;
  processing_status = EventProcessingStatus.queued;
  payload_hash = "";
  sync_run_id = run_id;
  snapshot_id = none;
}

abbrev next_run : RepositorySyncRun
next_run = record (run_of 22 SyncRunStatus.pending) { trigger_event_id = some 40 }

abbrev waiting : Database
waiting = record (with_runs (run_of 21 SyncRunStatus.succeeded ∷ next_run ∷ [])) {
  events = event_of 40 (some 22) ∷ [];
}

abbrev pub clock : Clock
clock = record {
  stale_check = 100;
  released_at = 101;
  enqueued_at = 1000000000;
  claim_check = 1000000000;
  failed_at = 1000000001;
}

chooses : (choose_next clock 1 21 none waiting).0 ≡ ok (some (run_webhook_sync 1 22 (some 40)))
unfolding choose_next no_clash update_where clash
chooses = refl

chosen_once_example :
    IsClaimedTask clock 1
      (some (run_webhook_sync 1 22 (some 40)))
      (choose_next clock 1 21 none waiting).1
unfolding no_clash clash
chosen_once_example =
    chosen_once clock 1 21 none waiting (some (run_webhook_sync 1 22 (some 40))) refl chooses

abbrev with_cursor : Database
with_cursor = record waiting {
  cursors =
      record {
        id = 50;
        connection_id = 1;
        target_key = "default_ref";
        latest_head_sha = "c0ffee";
        latest_event_id = 40;
        updated_at = 8;
      }
      ∷ [];
}

restores : (restore_event_cursor 51 1 (event_of 40 (some 22)) 9 with_cursor).0 ≡ ok tt
unfolding restore_event_cursor
restores = refl

restore_event_cursor-IsRestored_example : IsRestored 1 (event_of 40 (some 22)) with_cursor (
    find?
      (is_cursor 1 "default_ref")
      (restore_event_cursor 51 1 (event_of 40 (some 22)) 9 with_cursor).1.cursors)
restore_event_cursor-IsRestored_example =
    restore_event_cursor-IsRestored 51 1 (event_of 40 (some 22)) 9 with_cursor restores

abbrev builds_none : Uuid → Bool → Session BuiltSnapshot
builds_none workspace_id again = raise runtime_error
