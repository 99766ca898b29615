-- ===== src/Queue/Safety.antt =====
-- What the tasks do to the sync runs: they keep every statement J about that table that the
-- operations on a sync run keep.
use tci.Prelude.{
  Bool, false, not, Option, none, some, List, String, if◌then◌else◌, ◌==◌, nat_eq, option_eq, find?,
  ◌-◌, ◌||◌, inl, inr, Bool-cases, Option-cases,
}
use tci.Models.Enums.Types.{ProcessingDecision, EventProcessingStatus, SyncFailureCode}
use tci.Models.Rows.{Uuid, Instant, RepositoryEvent, RepositorySyncRun, RepositoryConnection}
use tci.Session.{Session, pure, session_scope, ◌>>=◌, ◌>>◌}
use tci.Session.Rules.{Preserves-if, Preserves-catch, Preserves-scope}
use tci.Persistence.Connections.{get_any, record_sync_failure}
use tci.Persistence.Cursors.{get_cursor, is_cursor, upsert, delete_if_latest_event}
use tci.Persistence.Events.{get_event, update_processing}
use tci.Persistence.SyncRuns.{get}
use tci.Persistence.SyncRuns.Operations.{
  mark_failed, claim_dispatch_enqueued, release_blocked_if_no_active,
}
use tci.Services.Safety.{Safe}
use tci.Services.Safety.Tables.{
  Safe-bind, Safe-get_event, Safe-update_processing, Safe-upsert, Safe-set_owned,
}
use tci.Queue.{Clock, TaskCall, stale_after}
use tci.Queue.RestoreCursor.{
  restore_event_cursor, move_cursor, list_events_for_connection, is_fallback, fallback_cursor,
}
use tci.Queue.Dispatch.{
  pending_sync_task_payload, choose_next, after_lookup, after_event, get_task_event, claim_found,
  find_next_run, belongs_elsewhere, is_finished,
}
use tci.Queue.Dispatch.Laws.{Safe-find_next_run, Safe-get_task_event}
use tci.Queue.DispatchFailure.{
  fail_dispatch, fail_trigger, restore_for, mark_pending_sync_dispatch_failed, send_chosen,
  dispatch_next_pending_sync, run_of_task,
}

module _ (J : List RepositorySyncRun → Type 0) where
  Safe-delete_cursor :
      (c : Uuid) (key : String) (e : Uuid) → Safe J (delete_if_latest_event c key e)
  unfolding delete_if_latest_event get_cursor
  Safe-delete_cursor c key e db h = elim (Option-cases (find? (is_cursor c key) db.cursors)) [
    | inl missing ↦ rw missing h
    | inr (r, seen) ↦ elim (Bool-cases (not (r.latest_event_id == e))) [
      | inl later ↦ rw (seen, later) h
      | inr own ↦ rw (seen, own) h
    ]
  ]

  pub Safe-restore_event_cursor :
      (i c : Uuid) (failed : RepositoryEvent) (at : Instant)
      → Safe J (restore_event_cursor i c failed at)
  unfolding restore_event_cursor list_events_for_connection
  Safe-restore_event_cursor i c failed at =
      Safe-bind J (list_events_for_connection c)
        (λ events. move_cursor i c failed at (find? (is_fallback failed) events)) (λ db h. h)
        (λ events. go (find? (is_fallback failed) events))
    where
      go : (found : Option RepositoryEvent) → Safe J (move_cursor i c failed at found)
      go none = Safe-delete_cursor c failed.target_key failed.id
      go (some e) =
          Safe-bind J (upsert (fallback_cursor i c failed at e)) (λ _. pure tt)
            (Safe-upsert J (fallback_cursor i c failed at e)) (λ _ db h. h)

  pub Safe-record_sync_failure :
      (w c : Uuid) (at : Instant) → Safe J (record_sync_failure w c at none)
  unfolding record_sync_failure
  Safe-record_sync_failure w c at = Safe-set_owned J w c _

  module _
      (claims : (c i : Uuid) (at : Instant) (before : Option Instant)
        → Safe J (claim_dispatch_enqueued c i at before))
      (releases : (c i : Uuid) (at : Instant) → Safe J (release_blocked_if_no_active c i at))
      (fails : (c i : Uuid) (code : SyncFailureCode) (text : String) (at : Instant)
        → Safe J (mark_failed c i code text at)) where
    module _ (clock : Clock) (c completed_id : Uuid) where
      Safe-claim_found :
          (w : Uuid) (found : Option RepositorySyncRun)
          → Safe J (claim_found clock c completed_id w found)
      Safe-claim_found w none = λ db h. h
      Safe-claim_found w (some run) =
          Safe-bind J
            (claim_dispatch_enqueued c run.id clock.enqueued_at
              (some (clock.claim_check - stale_after)))
            (λ claimed. pure (if claimed then some (pending_sync_task_payload w c run) else none))
            (claims c run.id clock.enqueued_at (some (clock.claim_check - stale_after)))
            (λ claimed db h. h)

      Safe-after_lookup :
          (e : Option Uuid) (completed : Option RepositorySyncRun)
          (connection : Option RepositoryConnection)
          → Safe J (after_lookup clock c completed_id e completed connection)
      Safe-after_lookup e none connection = λ db h. h
      Safe-after_lookup e (some completed) none = λ db h. h
      Safe-after_lookup e (some completed) (some connection) =
          Safe-bind J (get_task_event clock c completed_id e)
            (after_event clock c completed_id completed connection)
            (Safe-get_task_event J clock c completed_id (releases c) e)
            λ event.
              Preserves-if (λ db. J db.sync_runs)
                (belongs_elsewhere clock c completed_id event || not (is_finished completed.status))
                _ _ (λ db h. h)
                (Safe-bind J (find_next_run clock c completed_id completed)
                  (claim_found clock c completed_id connection.workspace_id)
                  (Safe-find_next_run J clock c completed_id (releases c) completed)
                  (Safe-claim_found connection.workspace_id))

      Safe-choose_next : (e : Option Uuid) → Safe J (choose_next clock c completed_id e)
      unfolding choose_next get get_any
      Safe-choose_next e =
          Safe-bind J (get c completed_id)
            (λ completed. get_any c >>= after_lookup clock c completed_id e completed) (λ db h. h)
            λ completed.
              Safe-bind J (get_any c) (after_lookup clock c completed_id e completed) (λ db h. h)
                (Safe-after_lookup e completed)

    module _ (cursor_id : Uuid) (at : Instant) (c i : Uuid) where
      Safe-fail_trigger : (trigger : Option Uuid) → Safe J (fail_trigger cursor_id at c i trigger)
      Safe-fail_trigger none = λ db h. h
      Safe-fail_trigger (some e) =
          Safe-bind J
            (update_processing e ProcessingDecision.queued EventProcessingStatus.failed at (some i)
              none false)
            (λ _. get_event e >>= restore_for cursor_id at c i)
            (Safe-update_processing J e ProcessingDecision.queued EventProcessingStatus.failed at
              (some i) none false)
            (λ _.
              Safe-bind J (get_event e) (restore_for cursor_id at c i) (Safe-get_event J e)
                restores)
        where
          restores : (found : Option RepositoryEvent) → Safe J (restore_for cursor_id at c i found)
          restores none = λ db h. h
          restores (some failed) = Safe-restore_event_cursor cursor_id c failed at

      Safe-fail_dispatch :
          (run : Option RepositorySyncRun) (connection : Option RepositoryConnection)
          → Safe J (fail_dispatch cursor_id at c i run connection)
      Safe-fail_dispatch none connection = λ db h. h
      Safe-fail_dispatch (some run) none = λ db h. h
      Safe-fail_dispatch (some run) (some connection) =
          Safe-bind J (mark_failed c i SyncFailureCode.queue_dispatch_failed _ at)
            (λ _. fail_trigger cursor_id at c i run.trigger_event_id >> note) (fails c i _ _ at)
            λ _.
              Safe-bind J (fail_trigger cursor_id at c i run.trigger_event_id) (λ _. note)
                (Safe-fail_trigger run.trigger_event_id)
                λ _.
                  Safe-bind J (record_sync_failure connection.workspace_id c at none) (λ _. pure tt)
                    (Safe-record_sync_failure connection.workspace_id c at) (λ _ db h. h)
        where
          note : Session Unit
          note = record_sync_failure connection.workspace_id c at none >> pure tt

      pub Safe-mark_dispatch_failed : Safe J (mark_pending_sync_dispatch_failed cursor_id at c i)
      unfolding mark_pending_sync_dispatch_failed get get_any
      Safe-mark_dispatch_failed =
          Preserves-catch (λ db. J db.sync_runs) (session_scope body) (λ e. pure tt)
            (Preserves-scope (λ db. J db.sync_runs) body
              (Safe-bind J (get c i) (λ run. get_any c >>= fail_dispatch cursor_id at c i run)
                (λ db h. h)
                λ run.
                  Safe-bind J (get_any c) (fail_dispatch cursor_id at c i run) (λ db h. h)
                    (Safe-fail_dispatch run)))
            (λ e db h. h)
        where
          body : Session Unit
          body = get c i >>= λ run. get_any c >>= fail_dispatch cursor_id at c i run

    pub Safe-dispatch_next :
        (sends : TaskCall → Bool) (cursor_id : Uuid) (clock : Clock) (c i : Uuid) (has_redis : Bool)
        (e : Option Uuid)
        → Safe J (dispatch_next_pending_sync sends cursor_id clock c i has_redis e)
    unfolding dispatch_next_pending_sync
    Safe-dispatch_next sends cursor_id clock c i has_redis e =
        Preserves-if (λ db. J db.sync_runs) (not has_redis) _ _ (λ db h. h)
          (Safe-bind J (session_scope (choose_next clock c i e))
            (send_chosen sends cursor_id clock c i)
            (Preserves-scope (λ db. J db.sync_runs) (choose_next clock c i e)
              (Safe-choose_next clock c i e))
            sent)
      where
        sent : (call : Option TaskCall) → Safe J (send_chosen sends cursor_id clock c i call)
        sent none = λ db h. h
        sent (some call) =
            Preserves-if (λ db. J db.sync_runs) (sends call) _ _ (λ db h. h)
              (Safe-bind J
                (mark_pending_sync_dispatch_failed cursor_id clock.failed_at c (run_of_task call))
                (λ _. pure none)
                (Safe-mark_dispatch_failed cursor_id clock.failed_at c (run_of_task call))
                (λ _ db h. h))
