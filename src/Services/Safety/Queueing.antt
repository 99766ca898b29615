-- ===== src/Services/Safety/Queueing.antt =====
-- The step that asks for a sync run, under assumptions on the creation and the retargeting of a run.
use tci.Prelude.{
  Bool, true, false, Option, none, some, List, not, ◌||◌, if◌then◌else◌, is_some, ◌==◌, option_eq,
  nat_eq, string_eq,
}
use tci.Models.Enums.Types.{
  SyncRunStatus, ProcessingDecision, EventProcessingStatus, SyncTriggerType, RefType,
}
use tci.Models.Enums.Equality.{processing_decision_eq}
use tci.Models.Rows.{Uuid, Instant, RepositorySyncRun}
use tci.Session.{Session, pure, ◌>>=◌, ◌>>◌}
use tci.Session.Rules.{Preserves-if}
use tci.Persistence.SyncRuns.{
  RepositorySyncRunDraft, create, get_active_for_requested_ref, get_running_for_requested_ref,
}
use tci.Persistence.SyncRuns.Operations.{update_blocked_trigger_event}
use tci.Persistence.Events.{get_event, update_processing}
use tci.Persistence.Cursors.{upsert}
use tci.Webhooks.Decision.{ProviderEventDecisionOutcome}
use tci.Webhooks.GitlabEvents.{ParsedProviderEvent}
use tci.Services.Platform.{Moment}
use tci.Services.Delivery.{
  pending_sync_dispatch_event_id, dispatch_of, queued_trigger, may_dispatch,
}
use tci.Services.GitlabEvent.Queueing.{
  SyncRequest, join_as_trigger, join_as_duplicate, join_active, cursor_draft, note_created, adopt,
  run_draft, create_run, with_active, running_of, active_of, for_ref, for_trigger, request_sync,
  no_sync,
}
use tci.Services.Safety.{Safe}
use tci.Services.Safety.Tables.{Safe-bind, Safe-get_event, Safe-update_processing, Safe-upsert}
use tci.Services.Safety.Creation.{Safe-create_or_get, Safe-create_or_replace}

module _ (J : List RepositorySyncRun → Type 0)
    (creates : (status : SyncRunStatus) (now : Instant) (draft : RepositorySyncRunDraft)
      → Safe J (create status now draft))
    (retargets : (c i : Uuid) (event : Option Uuid) (at : Instant)
      → Safe J (update_blocked_trigger_event c i event at)) where
  module _ (m : Moment) (c : Uuid) (event : ParsedProviderEvent) (i : Uuid) where
    Safe-dispatch : (run : RepositorySyncRun) → Safe J (pending_sync_dispatch_event_id m.clock run)
    unfolding pending_sync_dispatch_event_id
    Safe-dispatch run = go run.trigger_event_id
      where
        go : (o : Option Uuid) → Safe J (dispatch_of m.clock run o)
        go none = λ db h. h
        go (some e) =
            Preserves-if (λ db. J db.sync_runs)
              (not (may_dispatch m.clock run.dispatch_enqueued_at)) _ _ (λ db h. h)
              (Safe-bind J (get_event e) (λ found. pure (queued_trigger run e found))
                (Safe-get_event J e) (λ found db h. h))

    Safe-join_as_duplicate : (run : RepositorySyncRun) → Safe J (join_as_duplicate m c event i run)
    Safe-join_as_duplicate run =
        Safe-bind J (update_processing i _ _ m.now (some run.id) none false) (λ _. pure tt)
          (Safe-update_processing J i _ _ m.now (some run.id) none false) (λ _ db h. h)

    Safe-note_cursor : Safe J (upsert (cursor_draft m c event i) >> pure tt)
    Safe-note_cursor =
        Safe-bind J (upsert (cursor_draft m c event i)) (λ _. pure tt)
          (Safe-upsert J (cursor_draft m c event i)) (λ _ db h. h)

    Safe-join_as_trigger : (run : RepositorySyncRun) → Safe J (join_as_trigger m c event i run)
    Safe-join_as_trigger run =
        Safe-bind J
          (update_processing i ProcessingDecision.queued EventProcessingStatus.queued m.now
            (some run.id) none false)
          (λ _.
            if event.target_key == ""
            then pure tt
            else (upsert (cursor_draft m c event i) >> pure tt))
          (Safe-update_processing J i ProcessingDecision.queued EventProcessingStatus.queued m.now
            (some run.id) none false)
          λ _.
            Preserves-if (λ db. J db.sync_runs) (event.target_key == "") (pure tt)
              (upsert (cursor_draft m c event i) >> pure tt) (λ db h. h) Safe-note_cursor

    Safe-join_active : (run : RepositorySyncRun) → Safe J (join_active m c event i run)
    Safe-join_active run =
        Safe-bind J (pending_sync_dispatch_event_id m.clock run)
          (λ dispatch. join dispatch >> answer dispatch) (Safe-dispatch run)
          λ dispatch.
            Safe-bind J (join dispatch) (λ _. answer dispatch)
              (Preserves-if (λ db. J db.sync_runs) (dispatch == some i)
                (join_as_trigger m c event i run) (join_as_duplicate m c event i run)
                (Safe-join_as_trigger run) (Safe-join_as_duplicate run))
              (λ _ db h. h)
      where
        join : Option Uuid → Session Unit
        join dispatch =
            if dispatch == some i
            then join_as_trigger m c event i run
            else join_as_duplicate m c event i run

        answer : Option Uuid → Session SyncRequest
        answer dispatch = pure record {
          sync_run_id = some run.id;
          should_enqueue_sync = is_some dispatch;
          dispatch_event_id = dispatch;
        }

    Safe-note_created :
        (is_running : Bool) (run : RepositorySyncRun)
        → Safe J (note_created m c event i is_running run)
    Safe-note_created is_running run =
        Safe-bind J (update_processing i ProcessingDecision.queued _ m.now (some run.id) none false)
          (λ _. upsert (cursor_draft m c event i) >> pure tt)
          (Safe-update_processing J i ProcessingDecision.queued _ m.now (some run.id) none false)
          (λ _. Safe-note_cursor)

    Safe-adopt :
        (is_running : Bool) (created : RepositorySyncRun × Bool)
        → Safe J (adopt m c event i is_running created)
    Safe-adopt is_running (run, false) =
        Safe-bind J (join_as_duplicate m c event i run) _ (Safe-join_as_duplicate run) (λ _ db h. h)
    Safe-adopt is_running (run, true) =
        Safe-bind J (note_created m c event i is_running run) _ (Safe-note_created is_running run)
          (λ _ db h. h)

    Safe-create_run :
        (running : Option RepositorySyncRun) (draft : RepositorySyncRunDraft)
        → Safe J (create_run m c event i running draft)
    Safe-create_run none draft = Safe-create_or_get J creates retargets m.server_now draft
    Safe-create_run (some run) draft =
        Safe-create_or_replace J creates retargets m.server_now m.now draft

    Safe-with_active :
        (should_queue : Bool) (draft : RepositorySyncRunDraft)
        (running active : Option RepositorySyncRun)
        → Safe J (with_active m c event i should_queue draft running active)
    Safe-with_active should_queue draft running (some active) = Safe-join_active active
    Safe-with_active false draft running none = λ db h. h
    Safe-with_active true draft running none =
        Safe-bind J (create_run m c event i running draft) (adopt m c event i (is_some running))
          (Safe-create_run running draft) (Safe-adopt (is_some running))

    Safe-for_ref :
        (should_queue : Bool) (trigger : SyncTriggerType) (ref_type : Option RefType)
        → Safe J (for_ref m c event i should_queue trigger ref_type)
    unfolding get_running_for_requested_ref get_active_for_requested_ref
    Safe-for_ref should_queue trigger none = λ db h. h
    Safe-for_ref should_queue trigger (some ref_type) =
        Safe-bind J (running_of m c event i ref_type)
          (λ running.
            active_of m c event i ref_type
            >>= with_active m c event i should_queue (run_draft m c event i trigger ref_type)
                running)
          (λ db h. h)
          λ running.
            Safe-bind J (active_of m c event i ref_type)
              (with_active m c event i should_queue (run_draft m c event i trigger ref_type)
                running)
              (λ db h. h)
              (Safe-with_active should_queue (run_draft m c event i trigger ref_type) running)

    pub Safe-request_sync :
        (decision : ProviderEventDecisionOutcome) → Safe J (request_sync m c event i decision)
    unfolding request_sync
    Safe-request_sync decision = go event.trigger_type
      where
        go : (trigger : Option SyncTriggerType) → Safe J (for_trigger m c event i decision trigger)
        go none = λ db h. h
        go (some trigger) =
            Preserves-if (λ db. J db.sync_runs)
              (decision.should_queue_sync
                || decision.processing_decision == ProcessingDecision.duplicate_head)
              (for_ref m c event i decision.should_queue_sync trigger event.requested_ref_type)
              (pure no_sync)
              (Safe-for_ref decision.should_queue_sync trigger event.requested_ref_type) (λ db h. h)
