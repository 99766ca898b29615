-- ===== src/Services/Delivery.antt =====
-- The helpers of domain/services/process_gitlab_event.py that read and write the delivery's event and
-- its sync run.
use tci.Prelude.{
  ℕ, ◌+◌, Bool, true, false, not, Option, none, some, ltb, if◌then◌else◌, ◌==◌, nat_eq, option_eq,
}
use tci.Models.Enums.Types.{ProcessingDecision, EventProcessingStatus, SyncRunStatus}
use tci.Models.Enums.Equality.{processing_status_eq, processing_decision_eq, sync_run_status_eq}
use tci.Models.Rows.{Uuid, Instant, RepositoryEvent, RepositorySyncRun}
use tci.Session.{
  Session, Error, pure, raise, require, catch, begin_nested, ◌>>=◌, ◌>>◌, integrity_error,
}
use tci.Persistence.SyncRuns.{
  get, create_pending, create_blocked, get_active_for_requested_ref, get_running_for_requested_ref,
  get_blocked_for_requested_ref, RepositorySyncRunDraft,
}
use tci.Persistence.SyncRuns.Operations.{update_blocked_trigger_event}
use tci.Persistence.Events.{create_event, get_by_delivery_id, get_event, update_processing}

-- `except IntegrityError`
abbrev pub on_integrity_error : {A : Type 0} → Session A → Error → Session A
on_integrity_error m integrity_error = m
on_integrity_error m e = raise e

-- `event_repository.create(draft), True`, or the event that a concurrent request recorded.
unfoldable pub create_event_or_get_concurrent_delivery :
    RepositoryEvent → Session (RepositoryEvent × Bool)
unfolding create_event get_by_delivery_id begin_nested
create_event_or_get_concurrent_delivery draft =
    catch (begin_nested do event ← create_event draft; pure (event, true)) (
      on_integrity_error do
        found ←
            get_by_delivery_id draft.connection_id draft.provider_delivery_id
              draft.provider_event_idempotency_source
        existing ← require integrity_error found
        pure (existing, false))

-- PENDING_SYNC_DISPATCH_RETRY_AFTER, in microseconds.
abbrev pub pending_sync_dispatch_retry_after : ℕ
pending_sync_dispatch_retry_after = 900000000

-- `_pending_dispatch_is_stale`, at the clock's reading.
abbrev pub pending_dispatch_is_stale : Instant → Instant → Bool
pending_dispatch_is_stale clock enqueued_at =
    ltb (enqueued_at + pending_sync_dispatch_retry_after) clock

-- `dispatch_enqueued_at is None or _pending_dispatch_is_stale(dispatch_enqueued_at)`
abbrev pub may_dispatch : Instant → Option Instant → Bool
may_dispatch clock none = true
may_dispatch clock (some at) = pending_dispatch_is_stale clock at

abbrev pub queued_trigger : RepositorySyncRun → Uuid → Option RepositoryEvent → Option Uuid
queued_trigger sync_run event_id none = none
queued_trigger sync_run event_id (some event) =
    if not (event.sync_run_id == some sync_run.id)
    then none
    else if not (event.processing_status == EventProcessingStatus.queued)
    then none
    else some event_id

abbrev pub dispatch_of : Instant → RepositorySyncRun → Option Uuid → Session (Option Uuid)
dispatch_of clock sync_run none = pure none
dispatch_of clock sync_run (some event_id) =
    if not (may_dispatch clock sync_run.dispatch_enqueued_at) then pure none else do
      trigger_event ← get_event event_id
      pure (queued_trigger sync_run event_id trigger_event)

-- `_pending_sync_dispatch_event_id`
unfoldable pub pending_sync_dispatch_event_id : Instant → RepositorySyncRun → Session (Option Uuid)
unfolding get_event
pending_sync_dispatch_event_id clock sync_run = dispatch_of clock sync_run sync_run.trigger_event_id

abbrev pub run_is_retryable : Instant → Option RepositorySyncRun → Bool
run_is_retryable clock none = false
run_is_retryable clock (some run) =
    if not (run.status == SyncRunStatus.pending)
    then false
    else may_dispatch clock run.dispatch_enqueued_at

abbrev pub queued_is_retryable : Instant → Uuid → Option Uuid → Session Bool
queued_is_retryable clock connection_id none = pure false
queued_is_retryable clock connection_id (some sync_run_id) = do
  run ← get connection_id sync_run_id
  pure (run_is_retryable clock run)

-- `_is_retryable_delivery`
unfoldable pub is_retryable_delivery : Instant → Uuid → Option RepositoryEvent → Session Bool
unfolding get
is_retryable_delivery clock connection_id none = pure false
is_retryable_delivery clock connection_id (some event) =
    if event.processing_status == EventProcessingStatus.rejected
    then pure true
    else if not (event.processing_decision == ProcessingDecision.queued)
    then pure false
    else if event.processing_status == EventProcessingStatus.failed
    then pure true
    else if not (event.processing_status == EventProcessingStatus.queued)
    then pure false
    else queued_is_retryable clock connection_id event.sync_run_id

-- `x if x is not None else m`
abbrev pub or_query : {A : Type 0} → Option A → Session (Option A) → Session (Option A)
or_query none m = m
or_query (some a) m = pure (some a)

-- `_create_sync_run_or_get_active`
unfoldable pub create_sync_run_or_get_active :
    Instant → RepositorySyncRunDraft → Session (RepositorySyncRun × Bool)
unfolding create_pending begin_nested get_active_for_requested_ref get_running_for_requested_ref
create_sync_run_or_get_active server_now draft =
    catch (begin_nested do run ← create_pending server_now draft; pure (run, true)) (
      on_integrity_error do
        active ←
            get_active_for_requested_ref draft.connection_id draft.requested_ref_type
              draft.requested_ref_name draft.requested_ref_key
        found ← or_query active (
            get_running_for_requested_ref draft.connection_id draft.requested_ref_type
              draft.requested_ref_name draft.requested_ref_key)
        run ← require integrity_error found
        pure (run, false))

-- The event whose place at the blocked run is taken is completed as a duplicate.
abbrev pub complete_previous : Option Uuid → Option RepositoryEvent → Uuid → Instant → Session Unit
complete_previous none found run_id at = pure tt
complete_previous (some event_id) none run_id at = pure tt
complete_previous (some event_id) (some event) run_id at = do
  update_processing event_id ProcessingDecision.duplicate_head EventProcessingStatus.completed at
      (some run_id) none false
  pure tt

-- The event that the blocked run waits for, unless it is the new one.
abbrev pub previous_event_id : Option Uuid → Option Uuid → Option Uuid
previous_event_id none draft_event = none
previous_event_id (some event_id) draft_event =
    if some event_id == draft_event then none else some event_id

abbrev pub get_optional_event : Option Uuid → Session (Option RepositoryEvent)
get_optional_event none = pure none
get_optional_event (some event_id) = get_event event_id

unfoldable pub replace_blocked_sync_run :
    Instant → RepositorySyncRunDraft → RepositorySyncRun → Session (RepositorySyncRun × Bool)
unfolding get_event update_processing update_blocked_trigger_event
replace_blocked_sync_run processed_at draft blocked = do
  previous ← get_optional_event (previous_event_id blocked.trigger_event_id draft.trigger_event_id)
  complete_previous (previous_event_id blocked.trigger_event_id draft.trigger_event_id) previous
      blocked.id processed_at
  run ←
      update_blocked_trigger_event draft.connection_id blocked.id draft.trigger_event_id
        processed_at
  pure (run, true)

abbrev pub get_blocked_of : RepositorySyncRunDraft → Session (Option RepositorySyncRun)
get_blocked_of draft =
    get_blocked_for_requested_ref draft.connection_id draft.requested_ref_type
      draft.requested_ref_name draft.requested_ref_key

-- The first creation, or the row that a concurrent request blocked.
abbrev pub create_blocked_or_replace :
    Instant → Instant → RepositorySyncRunDraft → Session (RepositorySyncRun × Bool)
create_blocked_or_replace server_now processed_at draft =
    catch (begin_nested do run ← create_blocked server_now draft; pure (run, true)) (
      on_integrity_error do
        found ← get_blocked_of draft
        blocked ← require integrity_error found
        replace_blocked_sync_run processed_at draft blocked)

abbrev pub on_blocked :
    Instant
    → Instant
    → RepositorySyncRunDraft
    → Option RepositorySyncRun
    → Session (RepositorySyncRun × Bool)
on_blocked server_now processed_at draft none =
    create_blocked_or_replace server_now processed_at draft
on_blocked server_now processed_at draft (some blocked) =
    replace_blocked_sync_run processed_at draft blocked

-- `_create_or_replace_blocked_sync_run`
unfoldable pub create_or_replace_blocked_sync_run :
    Instant → Instant → RepositorySyncRunDraft → Session (RepositorySyncRun × Bool)
unfolding get_blocked_for_requested_ref create_blocked begin_nested replace_blocked_sync_run
create_or_replace_blocked_sync_run server_now processed_at draft = do
  blocked ← get_blocked_of draft
  on_blocked server_now processed_at draft blocked
