-- ===== src/Queue/Dispatch.antt =====
-- `_dispatch_next_pending_sync_for_ref`: when a run of a ref has ended, the next one is put on the
-- queue.
pub mod Laws
use tci.Prelude.{
  ℕ, ◌-◌, Bool, true, false, not, ◌&&◌, ◌||◌, Option, none, some, if◌then◌else◌, ◌==◌, nat_eq,
  option_eq, is_some,
}
use tci.Models.Enums.Types.{
  ProcessingDecision, EventProcessingStatus, SyncRunStatus, SyncTriggerType,
}
use tci.Models.Enums.Equality.{processing_status_eq, sync_run_status_eq}
use tci.Models.Rows.{Uuid, Instant, RepositoryEvent, RepositorySyncRun, RepositoryConnection}
use tci.Session.{Session, Error, pure, catch, ◌>>=◌, ◌>>◌}
use tci.Persistence.Connections.{get_any}
use tci.Persistence.Events.{get_event, update_processing}
use tci.Persistence.SyncRuns.{
  get, get_active_for_requested_ref, get_running_for_requested_ref, get_blocked_for_requested_ref,
}
use tci.Persistence.SyncRuns.Operations.{release_blocked_if_no_active, claim_dispatch_enqueued}
use tci.Services.Delivery.{on_integrity_error}
use tci.Queue.{
  Clock, TaskCall, dispatch_is_stale, stale_after, run_manual_snapshot_sync, run_webhook_sync,
}

-- `_pending_sync_task_payload`
abbrev pub pending_sync_task_payload : Uuid → Uuid → RepositorySyncRun → TaskCall
pending_sync_task_payload workspace_id connection_id run = elim run.trigger_type [
  | SyncTriggerType.manual_initial ↦ run_manual_snapshot_sync workspace_id connection_id run.id
  | SyncTriggerType.manual_refresh ↦ run_manual_snapshot_sync workspace_id connection_id run.id
  | _ ↦ run_webhook_sync connection_id run.id run.trigger_event_id
]

-- The event that a run waits for is there, belongs to the run and has the status.
abbrev pub waits_for : EventProcessingStatus → RepositorySyncRun → Option RepositoryEvent → Bool
waits_for status run none = false
waits_for status run (some event) =
    event.sync_run_id == some run.id && event.processing_status == status

-- `x is not None and x.id != completed_sync_run_id`
abbrev pub is_other_run : Uuid → Option RepositorySyncRun → Bool
is_other_run completed_id none = false
is_other_run completed_id (some run) = not (run.id == completed_id)

-- The run is claimed for dispatch, and not for so long that the claim is stale.
abbrev pub is_claimed : Instant → Option Instant → Bool
is_claimed now none = false
is_claimed now (some at) = not (dispatch_is_stale now at)

-- `except IntegrityError: return`
abbrev pub none_on_integrity_error : Error → Session (Option RepositorySyncRun)
none_on_integrity_error = on_integrity_error (pure none)

abbrev pub is_finished : SyncRunStatus → Bool
is_finished SyncRunStatus.succeeded = true
is_finished SyncRunStatus.failed = true
is_finished _ = false

module _ (clock : Clock) (connection_id completed_id : Uuid) where
  -- A pending run, with the event that it waits for.
  abbrev pub ready_pending : RepositorySyncRun → Uuid → Session (Option RepositorySyncRun)
  ready_pending run event_id =
      if is_claimed clock.stale_check run.dispatch_enqueued_at then pure none else do
        event ← get_event event_id
        pure (if waits_for EventProcessingStatus.queued run event then some run else none)

  abbrev pub release_run : Uuid → Session (Option RepositorySyncRun)
  release_run run_id =
      catch (release_blocked_if_no_active connection_id run_id clock.released_at)
        none_on_integrity_error

  abbrev pub note_released : Uuid → Option RepositorySyncRun → Session (Option RepositorySyncRun)
  note_released event_id none = pure none
  note_released event_id (some run) = do
    update_processing event_id ProcessingDecision.queued EventProcessingStatus.queued
        clock.released_at (some run.id) none false
    pure (some run)

  -- A blocked run, whose event has been validated, is released.
  abbrev pub ready_blocked :
      RepositorySyncRun → Uuid → Option RepositoryEvent → Session (Option RepositorySyncRun)
  ready_blocked run event_id event =
      if not (waits_for EventProcessingStatus.validated run event)
      then pure none
      else do released ← release_run run.id; note_released event_id released

  abbrev pub with_blocked_event :
      RepositorySyncRun → Option Uuid → Session (Option RepositorySyncRun)
  with_blocked_event run none = pure none
  with_blocked_event run (some event_id) = do
    event ← get_event event_id
    ready_blocked run event_id event

  abbrev pub with_blocked : Option RepositorySyncRun → Session (Option RepositorySyncRun)
  with_blocked none = pure none
  with_blocked (some run) =
      if run.id == completed_id then pure none else with_blocked_event run run.trigger_event_id

  abbrev pub blocked_of : RepositorySyncRun → Session (Option RepositorySyncRun)
  blocked_of completed =
      get_blocked_for_requested_ref connection_id completed.requested_ref_type
        completed.requested_ref_name (some completed.requested_ref_key)

  -- No other run of the ref is pending with an event.
  abbrev pub next_blocked :
      RepositorySyncRun → Option RepositorySyncRun → Session (Option RepositorySyncRun)
  next_blocked completed running =
      if is_other_run completed_id running
      then pure none
      else do blocked ← blocked_of completed; with_blocked blocked

  abbrev pub find_blocked : RepositorySyncRun → Session (Option RepositorySyncRun)
  find_blocked completed = do
    running ←
        get_running_for_requested_ref connection_id completed.requested_ref_type
          completed.requested_ref_name (some completed.requested_ref_key)
    next_blocked completed running

  abbrev pub with_trigger :
      RepositorySyncRun → RepositorySyncRun → Option Uuid → Session (Option RepositorySyncRun)
  with_trigger completed run none = find_blocked completed
  with_trigger completed run (some event_id) = ready_pending run event_id

  abbrev pub with_pending :
      RepositorySyncRun → Option RepositorySyncRun → Session (Option RepositorySyncRun)
  with_pending completed none = find_blocked completed
  with_pending completed (some run) =
      if run.id == completed_id
      then find_blocked completed
      else with_trigger completed run run.trigger_event_id

  -- The run that is next: `pending_sync_run`, where the function does not return before.
  unfoldable pub find_next_run : RepositorySyncRun → Session (Option RepositorySyncRun)
  unfolding get_active_for_requested_ref get_running_for_requested_ref get_blocked_for_requested_ref
      get_event update_processing release_blocked_if_no_active
  find_next_run completed = do
    pending ←
        get_active_for_requested_ref connection_id completed.requested_ref_type
          completed.requested_ref_name (some completed.requested_ref_key)
    with_pending completed pending

  abbrev pub claim_next : Uuid → RepositorySyncRun → Session (Option TaskCall)
  claim_next workspace_id run = do
    claimed ←
        claim_dispatch_enqueued connection_id run.id clock.enqueued_at
          (some (clock.claim_check - stale_after))
    pure (if claimed then some (pending_sync_task_payload workspace_id connection_id run) else none)

  abbrev pub claim_found : Uuid → Option RepositorySyncRun → Session (Option TaskCall)
  claim_found workspace_id none = pure none
  claim_found workspace_id (some run) = claim_next workspace_id run

  -- The event of the task is another run's by now.
  abbrev pub belongs_elsewhere : Option RepositoryEvent → Bool
  belongs_elsewhere none = false
  belongs_elsewhere (some event) = not (event.sync_run_id == some completed_id)

  abbrev pub get_task_event : Option Uuid → Session (Option RepositoryEvent)
  get_task_event none = pure none
  get_task_event (some event_id) = get_event event_id

  abbrev pub after_event :
      RepositorySyncRun → RepositoryConnection → Option RepositoryEvent → Session (Option TaskCall)
  after_event completed connection event =
      if belongs_elsewhere event || not (is_finished completed.status)
      then pure none
      else do next ← find_next_run completed; claim_found connection.workspace_id next

  abbrev pub after_lookup :
      Option Uuid
      → Option RepositorySyncRun
      → Option RepositoryConnection
      → Session (Option TaskCall)
  after_lookup event_id (some completed) (some connection) = do
    event ← get_task_event event_id
    after_event completed connection event
  after_lookup event_id _ _ = pure none

  -- The transaction of the function: the task to send, for a run that is claimed now.
  unfoldable pub choose_next : Option Uuid → Session (Option TaskCall)
  unfolding get get_any get_event find_next_run claim_dispatch_enqueued
  choose_next event_id = do
    completed ← get connection_id completed_id
    connection ← get_any connection_id
    after_lookup event_id completed connection
