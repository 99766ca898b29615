-- ===== src/Services/Safety/Creation.antt =====
-- The creation of a sync run, and the replacement of a blocked one, in their savepoints.
use tci.Prelude.{Bool, true, false, Option, none, some, List, option_eq, nat_eq, string_eq}
use tci.Models.Enums.Types.{SyncRunStatus}
use tci.Models.Enums.Equality.{processing_decision_eq}
use tci.Models.Rows.{Uuid, Instant, RepositorySyncRun, RepositoryEvent}
use tci.Session.{Session, pure, require, ◌>>=◌, ◌>>◌, integrity_error}
use tci.Persistence.SyncRuns.{
  RepositorySyncRunDraft, create, create_pending, create_blocked, get_active_for_requested_ref,
  get_running_for_requested_ref, get_blocked_for_requested_ref,
}
use tci.Persistence.SyncRuns.Operations.{update_blocked_trigger_event}
use tci.Persistence.Events.{update_processing}
use tci.Services.Delivery.{
  create_sync_run_or_get_active, create_or_replace_blocked_sync_run, replace_blocked_sync_run,
  get_optional_event, previous_event_id, complete_previous, get_blocked_of, on_blocked, or_query,
}
use tci.Services.Safety.{Safe}
use tci.Services.Safety.Tables.{
  Safe-bind, Safe-get_event, Safe-update_processing, Safe-attempt, Safe-required,
}

module _ (J : List RepositorySyncRun → Type 0)
    (creates : (status : SyncRunStatus) (now : Instant) (draft : RepositorySyncRunDraft)
      → Safe J (create status now draft))
    (retargets : (c i : Uuid) (event : Option Uuid) (at : Instant)
      → Safe J (update_blocked_trigger_event c i event at)) where
  Safe-or_query :
      (o : Option RepositorySyncRun) (q : Session (Option RepositorySyncRun))
      → Safe J q
      → Safe J (or_query o q)
  Safe-or_query none q h = h
  Safe-or_query (some r) q h = λ db k. k

  pub Safe-create_or_get :
      (now : Instant) (draft : RepositorySyncRunDraft)
      → Safe J (create_sync_run_or_get_active now draft)
  unfolding create_sync_run_or_get_active create_pending get_active_for_requested_ref
      get_running_for_requested_ref
  Safe-create_or_get now draft =
      Safe-attempt J (create_pending now draft >>= λ run. pure (run, true))
        (find_active >>= λ active. or_query active find_running >>= answer)
        (Safe-bind J (create_pending now draft) (λ run. pure (run, true))
          (creates SyncRunStatus.pending now draft) (λ run db h. h))
        (Safe-bind J find_active (λ active. or_query active find_running >>= answer) (λ db h. h)
          λ active.
            Safe-bind J (or_query active find_running) answer
              (Safe-or_query active find_running (λ db h. h))
              λ found.
                Safe-required J integrity_error found (λ run. pure (run, false)) (λ run db h. h))
    where
      find_active : Session (Option RepositorySyncRun)
      find_active =
          get_active_for_requested_ref draft.connection_id draft.requested_ref_type
            draft.requested_ref_name draft.requested_ref_key

      find_running : Session (Option RepositorySyncRun)
      find_running =
          get_running_for_requested_ref draft.connection_id draft.requested_ref_type
            draft.requested_ref_name draft.requested_ref_key

      answer : Option RepositorySyncRun → Session (RepositorySyncRun × Bool)
      answer found = require integrity_error found >>= λ run. pure (run, false)

  Safe-get_optional_event : (o : Option Uuid) → Safe J (get_optional_event o)
  Safe-get_optional_event none = λ db h. h
  Safe-get_optional_event (some i) = Safe-get_event J i

  Safe-complete_previous :
      (o : Option Uuid) (found : Option RepositoryEvent) (run : Uuid) (at : Instant)
      → Safe J (complete_previous o found run at)
  Safe-complete_previous none found run at = λ db h. h
  Safe-complete_previous (some i) none run at = λ db h. h
  Safe-complete_previous (some i) (some e) run at =
      Safe-bind J (update_processing i _ _ at (some run) none false) (λ _. pure tt)
        (Safe-update_processing J i _ _ at (some run) none false) (λ _ db h. h)

  Safe-replace :
      (at : Instant) (draft : RepositorySyncRunDraft) (blocked : RepositorySyncRun)
      → Safe J (replace_blocked_sync_run at draft blocked)
  unfolding replace_blocked_sync_run
  Safe-replace at draft blocked =
      Safe-bind J (get_optional_event previous)
        (λ found. complete_previous previous found blocked.id at >> move)
        (Safe-get_optional_event previous)
        λ found.
          Safe-bind J (complete_previous previous found blocked.id at) (λ _. move)
            (Safe-complete_previous previous found blocked.id at)
            λ _.
              Safe-bind J
                (update_blocked_trigger_event draft.connection_id blocked.id draft.trigger_event_id
                  at)
                (λ run. pure (run, true))
                (retargets draft.connection_id blocked.id draft.trigger_event_id at) (λ run db h. h)
    where
      previous : Option Uuid
      previous = previous_event_id blocked.trigger_event_id draft.trigger_event_id

      move : Session (RepositorySyncRun × Bool)
      move =
          update_blocked_trigger_event draft.connection_id blocked.id draft.trigger_event_id at
          >>= λ run. pure (run, true)

  Safe-get_blocked : (draft : RepositorySyncRunDraft) → Safe J (get_blocked_of draft)
  unfolding get_blocked_for_requested_ref
  Safe-get_blocked draft db h = h

  Safe-on_blocked :
      (now at : Instant) (draft : RepositorySyncRunDraft) (found : Option RepositorySyncRun)
      → Safe J (on_blocked now at draft found)
  unfolding create_blocked
  Safe-on_blocked now at draft (some blocked) = Safe-replace at draft blocked
  Safe-on_blocked now at draft none =
      Safe-attempt J (create_blocked now draft >>= λ run. pure (run, true))
        (get_blocked_of draft >>= answer)
        (Safe-bind J (create_blocked now draft) (λ run. pure (run, true))
          (creates SyncRunStatus.blocked now draft) (λ run db h. h))
        (Safe-bind J (get_blocked_of draft) answer (Safe-get_blocked draft) λ found.
          Safe-required J integrity_error found (replace_blocked_sync_run at draft)
            (Safe-replace at draft))
    where
      answer : Option RepositorySyncRun → Session (RepositorySyncRun × Bool)
      answer found = require integrity_error found >>= replace_blocked_sync_run at draft

  pub Safe-create_or_replace :
      (now at : Instant) (draft : RepositorySyncRunDraft)
      → Safe J (create_or_replace_blocked_sync_run now at draft)
  unfolding create_or_replace_blocked_sync_run
  Safe-create_or_replace now at draft =
      Safe-bind J (get_blocked_of draft) (on_blocked now at draft) (Safe-get_blocked draft)
        (Safe-on_blocked now at draft)
