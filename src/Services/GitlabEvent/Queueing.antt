-- ===== src/Services/GitlabEvent/Queueing.antt =====
-- The sync run of an accepted delivery: the run that waits already, a new one, or one that is
-- blocked behind the run in progress.
use tci.Prelude.{
  Bool, true, false, not, ◌||◌, Option, none, some, String, if◌then◌else◌, ◌==◌, nat_eq, option_eq,
  string_eq, is_some,
}
use tci.Models.Enums.Types.{ProcessingDecision, EventProcessingStatus, RefType, SyncTriggerType}
use tci.Models.Enums.Equality.{processing_decision_eq}
use tci.Models.Rows.{Uuid, RepositorySyncRun, RepositoryEventCursor}
use tci.Session.{Session, pure, raise, ◌>>=◌, ◌>>◌, runtime_error}
use tci.Persistence.SyncRuns.{
  get_active_for_requested_ref, get_running_for_requested_ref, RepositorySyncRunDraft,
}
use tci.Persistence.Events.{update_processing}
use tci.Persistence.Cursors.{upsert}
use tci.Webhooks.Decision.{ProviderEventDecisionOutcome}
use tci.Webhooks.GitlabEvents.{ParsedProviderEvent}
use tci.Services.Platform.{Moment}
use tci.Services.Delivery.{
  pending_sync_dispatch_event_id, create_sync_run_or_get_active, create_or_replace_blocked_sync_run,
}
use tci.Services.GitlabEvent.Rules.{sync_run_ref_key}

-- What the delivery asks of its sync run: `sync_run.id`, `should_enqueue_sync`, `dispatch_event_id`.
pub record SyncRequest : Type 0 where
  pub sync_run_id : Option Uuid
  pub should_enqueue_sync : Bool
  pub dispatch_event_id : Option Uuid

abbrev pub no_sync : SyncRequest
no_sync = record { sync_run_id = none; should_enqueue_sync = false; dispatch_event_id = none }

abbrev text_or : Option String → String → String
text_or none s = s
text_or (some t) s = t

module _ (m : Moment) (connection_id : Uuid) (event : ParsedProviderEvent) (event_id : Uuid) where
  abbrev pub cursor_draft : RepositoryEventCursor
  cursor_draft = record {
    id = m.cursor_uuid;
    connection_id = connection_id;
    target_key = event.target_key;
    latest_head_sha = text_or event.target_head_sha "";
    latest_event_id = event_id;
    updated_at = m.now;
  }

  abbrev pub join_as_trigger : RepositorySyncRun → Session Unit
  join_as_trigger run = do
    update_processing event_id ProcessingDecision.queued EventProcessingStatus.queued m.now
        (some run.id) none false
    if event.target_key == "" then pure tt else do upsert cursor_draft; pure tt

  abbrev pub join_as_duplicate : RepositorySyncRun → Session Unit
  join_as_duplicate run = do
    update_processing event_id ProcessingDecision.duplicate_head EventProcessingStatus.completed
        m.now (some run.id) none false
    pure tt

  -- There is a pending run of the ref.
  abbrev pub join_active : RepositorySyncRun → Session SyncRequest
  join_active run = do
    dispatch_event_id ← pending_sync_dispatch_event_id m.clock run
    if dispatch_event_id == some event_id then join_as_trigger run else join_as_duplicate run
    pure record {
      sync_run_id = some run.id;
      should_enqueue_sync = is_some dispatch_event_id;
      dispatch_event_id = dispatch_event_id;
    }

  abbrev pub run_draft : SyncTriggerType → RefType → RepositorySyncRunDraft
  run_draft trigger_type ref_type = record {
    id = m.run_uuid;
    connection_id = connection_id;
    trigger_event_id = some event_id;
    trigger_type = trigger_type;
    requested_ref_type = ref_type;
    requested_ref_name = text_or event.requested_ref_name "";
    requested_ref_key = some (sync_run_ref_key event);
  }

  abbrev pub adopt_existing : RepositorySyncRun → Session SyncRequest
  adopt_existing run = do
    join_as_duplicate run
    pure record { sync_run_id = some run.id; should_enqueue_sync = false; dispatch_event_id = none }

  abbrev pub note_created : Bool → RepositorySyncRun → Session Unit
  note_created is_running run = do
    update_processing event_id ProcessingDecision.queued
        (if is_running then EventProcessingStatus.validated else EventProcessingStatus.queued) m.now
        (some run.id) none false
    upsert cursor_draft
    pure tt

  abbrev pub adopt_created : Bool → RepositorySyncRun → Session SyncRequest
  adopt_created is_running run = do
    note_created is_running run
    pure record {
      sync_run_id = some run.id;
      should_enqueue_sync = not is_running;
      dispatch_event_id = if is_running then none else some event_id;
    }

  -- The run is there; the flag says whether it is this event's.
  abbrev pub adopt : Bool → RepositorySyncRun × Bool → Session SyncRequest
  adopt is_running (run, false) = adopt_existing run
  adopt is_running (run, true) = adopt_created is_running run

  abbrev pub create_run :
      Option RepositorySyncRun → RepositorySyncRunDraft → Session (RepositorySyncRun × Bool)
  create_run none draft = create_sync_run_or_get_active m.server_now draft
  create_run (some running) draft = create_or_replace_blocked_sync_run m.server_now m.now draft

  abbrev pub with_active :
      Bool
      → RepositorySyncRunDraft
      → Option RepositorySyncRun
      → Option RepositorySyncRun
      → Session SyncRequest
  with_active should_queue draft running (some active) = join_active active
  with_active should_queue draft running none =
      if not should_queue
      then pure no_sync
      else do created ← create_run running draft; adopt (is_some running) created

  abbrev pub running_of : RefType → Session (Option RepositorySyncRun)
  running_of ref_type =
      get_running_for_requested_ref connection_id ref_type (text_or event.requested_ref_name "")
        (some (sync_run_ref_key event))

  abbrev pub active_of : RefType → Session (Option RepositorySyncRun)
  active_of ref_type =
      get_active_for_requested_ref connection_id ref_type (text_or event.requested_ref_name "")
        (some (sync_run_ref_key event))

  abbrev pub for_ref : Bool → SyncTriggerType → Option RefType → Session SyncRequest
  for_ref should_queue trigger_type none = raise runtime_error
  for_ref should_queue trigger_type (some ref_type) = do
    running ← running_of ref_type
    active ← active_of ref_type
    with_active should_queue (run_draft trigger_type ref_type) running active

  abbrev pub for_trigger :
      ProviderEventDecisionOutcome → Option SyncTriggerType → Session SyncRequest
  for_trigger decision none = pure no_sync
  for_trigger decision (some trigger_type) =
      if decision.should_queue_sync
        || decision.processing_decision == ProcessingDecision.duplicate_head
      then for_ref decision.should_queue_sync trigger_type event.requested_ref_type
      else pure no_sync

  -- The branch of process_gitlab_event that finds or creates the sync run.
  unfoldable pub request_sync : ProviderEventDecisionOutcome → Session SyncRequest
  unfolding get_running_for_requested_ref get_active_for_requested_ref update_processing upsert
      pending_sync_dispatch_event_id create_sync_run_or_get_active
      create_or_replace_blocked_sync_run
  request_sync decision = for_trigger decision event.trigger_type
