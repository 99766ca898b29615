-- ===== src/Queue/Dispatch/Laws.antt =====
-- What the choice of the next run does to the sync runs, and that two workers do not send one run.
use tci.Prelude.{
  ◌≡◌, refl, ◌<◌, ◌-◌, Bool, true, false, not, ◌||◌, Option, none, some, List, if◌then◌else◌, ◌==◌,
  nat_eq,
}
use tci.Models.Enums.Types.{SyncTriggerType, EventProcessingStatus, ProcessingDecision}
use tci.Models.Rows.{Uuid, Instant, RepositorySyncRun, RepositoryEvent, RepositoryConnection}
use tci.Session.{Session, Database, empty_database, Result, ok, err, pure, next_step}
use tci.Session.Rules.{Preserves-if, Preserves-catch, Ends, Ends-bind, Ends-if, Ends-pure}
use tci.Persistence.Connections.{get_any}
use tci.Persistence.Events.{get_event, update_processing}
use tci.Persistence.SyncRuns.{
  get, get_active_for_requested_ref, get_running_for_requested_ref, get_blocked_for_requested_ref,
}
use tci.Persistence.SyncRuns.Operations.{release_blocked_if_no_active, claim_dispatch_enqueued}
use tci.Persistence.SyncRuns.Constraints.{IsConsistent}
use tci.Persistence.SyncRuns.Claim.{second_claim_fails}
use tci.Persistence.SyncRuns.Release.{release_total}
use tci.Services.Safety.{Safe}
use tci.Services.Safety.Tables.{
  Safe-bind, Safe-get_event, Safe-update_processing, Safe-on_integrity_error,
}
use tci.Queue.{Clock, TaskCall, stale_after}
use tci.Queue.Dispatch.{
  pending_sync_task_payload, waits_for, is_claimed, none_on_integrity_error, ready_pending,
  release_run, note_released, ready_blocked, with_blocked_event, with_blocked, blocked_of,
  next_blocked, find_blocked, with_trigger, with_pending, find_next_run, claim_next, claim_found,
  get_task_event, after_event, after_lookup, choose_next, is_other_run, belongs_elsewhere,
  is_finished,
}
use tci.Queue.DispatchFailure.{run_of_task}

module _ (J : List RepositorySyncRun → Type 0) (clock : Clock) (c completed_id : Uuid)
    (releases : (i : Uuid) (at : Instant) → Safe J (release_blocked_if_no_active c i at)) where
  abbrev SafeIf :
      {A : Type 0} (b : Bool) (m k : Session A) → Safe J m → Safe J k → Safe J (if b then m else k)
  SafeIf b m k = Preserves-if (λ db. J db.sync_runs) b m k

  Safe-ready_pending :
      (run : RepositorySyncRun) (e : Uuid) → Safe J (ready_pending clock c completed_id run e)
  Safe-ready_pending run e =
      SafeIf (is_claimed clock.stale_check run.dispatch_enqueued_at) _ _ (λ db h. h)
        (Safe-bind J (get_event e)
          (λ event.
            pure (if waits_for EventProcessingStatus.queued run event then some run else none))
          (Safe-get_event J e) (λ event db h. h))

  Safe-note_released :
      (e : Uuid) (found : Option RepositorySyncRun)
      → Safe J (note_released clock c completed_id e found)
  Safe-note_released e none = λ db h. h
  Safe-note_released e (some run) =
      Safe-bind J
        (update_processing e ProcessingDecision.queued EventProcessingStatus.queued
          clock.released_at (some run.id) none false)
        (λ _. pure (some run))
        (Safe-update_processing J e ProcessingDecision.queued EventProcessingStatus.queued
          clock.released_at (some run.id) none false)
        (λ _ db h. h)

  Safe-ready_blocked :
      (run : RepositorySyncRun) (e : Uuid) (event : Option RepositoryEvent)
      → Safe J (ready_blocked clock c completed_id run e event)
  Safe-ready_blocked run e event =
      SafeIf (not (waits_for EventProcessingStatus.validated run event)) _ _ (λ db h. h)
        (Safe-bind J (release_run clock c completed_id run.id)
          (note_released clock c completed_id e)
          (Preserves-catch (λ db. J db.sync_runs)
            (release_blocked_if_no_active c run.id clock.released_at) none_on_integrity_error
            (releases run.id clock.released_at)
            (λ x. Safe-on_integrity_error J (pure none) x (λ db h. h)))
          (Safe-note_released e))

  Safe-with_blocked :
      (found : Option RepositorySyncRun) → Safe J (with_blocked clock c completed_id found)
  Safe-with_blocked none = λ db h. h
  Safe-with_blocked (some run) =
      SafeIf (run.id == completed_id) _ _ (λ db h. h) (go run.trigger_event_id)
    where
      go : (o : Option Uuid) → Safe J (with_blocked_event clock c completed_id run o)
      go none = λ db h. h
      go (some e) =
          Safe-bind J (get_event e) (ready_blocked clock c completed_id run e) (Safe-get_event J e)
            (Safe-ready_blocked run e)

  Safe-find_blocked :
      (completed : RepositorySyncRun) → Safe J (find_blocked clock c completed_id completed)
  unfolding get_running_for_requested_ref get_blocked_for_requested_ref
  Safe-find_blocked completed =
      Safe-bind J
        (get_running_for_requested_ref c completed.requested_ref_type completed.requested_ref_name
          (some completed.requested_ref_key))
        (next_blocked clock c completed_id completed) (λ db h. h)
        λ running.
          SafeIf (is_other_run completed_id running) _ _ (λ db h. h)
            (Safe-bind J (blocked_of clock c completed_id completed)
              (with_blocked clock c completed_id) (λ db h. h) Safe-with_blocked)

  Safe-with_pending :
      (completed : RepositorySyncRun) (found : Option RepositorySyncRun)
      → Safe J (with_pending clock c completed_id completed found)
  Safe-with_pending completed none = Safe-find_blocked completed
  Safe-with_pending completed (some run) =
      SafeIf (run.id == completed_id) _ _ (Safe-find_blocked completed) (go run.trigger_event_id)
    where
      go : (o : Option Uuid) → Safe J (with_trigger clock c completed_id completed run o)
      go none = Safe-find_blocked completed
      go (some e) = Safe-ready_pending run e

  pub Safe-find_next_run :
      (completed : RepositorySyncRun) → Safe J (find_next_run clock c completed_id completed)
  unfolding find_next_run get_active_for_requested_ref
  Safe-find_next_run completed =
      Safe-bind J
        (get_active_for_requested_ref c completed.requested_ref_type completed.requested_ref_name
          (some completed.requested_ref_key))
        (with_pending clock c completed_id completed) (λ db h. h) (Safe-with_pending completed)

  pub Safe-get_task_event : (o : Option Uuid) → Safe J (get_task_event clock c completed_id o)
  Safe-get_task_event none = λ db h. h
  Safe-get_task_event (some e) = Safe-get_event J e

-- A task for a run that no other worker can claim, as long as this claim is not stale.
abbrev pub IsClaimedTask : Clock → Uuid → Option TaskCall → Database → Type 0
IsClaimedTask clock c none db = Unit
IsClaimedTask clock c (some call) db =
    (at limit : Instant)
    → limit < clock.enqueued_at
    → (claim_dispatch_enqueued c (run_of_task call) at (some limit) db).0 ≡ ok false

task_run :
    (w c : Uuid) (run : RepositorySyncRun)
    → run_of_task (pending_sync_task_payload w c run) ≡ run.id
task_run w c run = go run.trigger_type
  where
    go :
        (t : SyncTriggerType)
        → run_of_task (pending_sync_task_payload w c (record run { trigger_type = t })) ≡ run.id
    go SyncTriggerType.manual_initial = refl
    go SyncTriggerType.manual_refresh = refl
    go SyncTriggerType.webhook_push = refl
    go SyncTriggerType.webhook_pull_request = refl
    go SyncTriggerType.webhook_merge_request = refl

module _ (clock : Clock) (c completed_id : Uuid) where
  abbrev Q : Option TaskCall → Database → Type 0
  Q = IsClaimedTask clock c

  claim_next-IsClaimedTask :
      (w : Uuid) (run : RepositorySyncRun)
      → Ends IsConsistent Q (claim_next clock c completed_id w run)
  claim_next-IsClaimedTask w run db fine a =
      go (claim_dispatch_enqueued c run.id clock.enqueued_at before db).0 refl
    where
      before : Option Instant
      before = some (clock.claim_check - stale_after)

      after : Bool → Session (Option TaskCall)
      after claimed = pure (if claimed then some (pending_sync_task_payload w c run) else none)

      go :
          (r : Result Bool)
          → (claim_dispatch_enqueued c run.id clock.enqueued_at before db).0 ≡ r
          → (next_step after r (claim_dispatch_enqueued c run.id clock.enqueued_at before db).1).0
            ≡ ok a
          → Q a
              (next_step after r (claim_dispatch_enqueued c run.id clock.enqueued_at before db).1).1
      go (ok true) done e =
          let same : a ≡ some (pending_sync_task_payload w c run) = cc in
          rw same (λ at limit late.
            rw (task_run w c run)
              (second_claim_fails c run.id db clock.enqueued_at at before limit fine done late))
      go (ok false) done e = let same : a ≡ none = cc in rw same tt
      go (err x) done e = cc

  nothing : Ends IsConsistent Q (pure none)
  nothing = Ends-pure IsConsistent Q none (λ db. tt)

  IsConsistent-release :
      (i : Uuid) (at : Instant)
      → Safe
          (λ rows. IsConsistent record empty_database { sync_runs = rows })
          (release_blocked_if_no_active c i at)
  IsConsistent-release i at db h = (release_total c i at db h).2

  -- Two workers never send the task of one run: whatever the state of the tables, once a worker has
  -- chosen a task its run is claimed, so that any other claim of it fails until the claim is stale.
  pub chosen_once :
      (event_id : Option Uuid) (db : Database) (chosen : Option TaskCall)
      → IsConsistent db
      → (choose_next clock c completed_id event_id db).0 ≡ ok chosen
      → IsClaimedTask clock c chosen (choose_next clock c completed_id event_id db).1
  unfolding choose_next get get_any
  chosen_once event_id db chosen fine =
      Ends-bind IsConsistent Q (get c completed_id) _ (λ d h. h)
        (λ completed.
          Ends-bind IsConsistent Q (get_any c)
            (after_lookup clock c completed_id event_id completed) (λ d h. h) (looked_up completed))
        db fine chosen
    where
      then_claim :
          (w : Uuid) (found : Option RepositorySyncRun)
          → Ends IsConsistent Q (claim_found clock c completed_id w found)
      then_claim w none = nothing
      then_claim w (some run) = claim_next-IsClaimedTask w run

      looked_up :
          (completed : Option RepositorySyncRun) (connection : Option RepositoryConnection)
          → Ends IsConsistent Q (after_lookup clock c completed_id event_id completed connection)
      looked_up none connection = nothing
      looked_up (some completed) none = nothing
      looked_up (some completed) (some connection) =
          Ends-bind IsConsistent Q (get_task_event clock c completed_id event_id)
            (after_event clock c completed_id completed connection)
            (Safe-get_task_event _ clock c completed_id IsConsistent-release event_id)
            λ event.
              Ends-if IsConsistent Q
                (belongs_elsewhere clock c completed_id event || not (is_finished completed.status))
                _ _ nothing
                (Ends-bind IsConsistent Q (find_next_run clock c completed_id completed)
                  (claim_found clock c completed_id connection.workspace_id)
                  (Safe-find_next_run _ clock c completed_id IsConsistent-release completed)
                  (then_claim connection.workspace_id))
