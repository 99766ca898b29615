-- ===== src/Tests/Deliveries.antt =====
-- Deliveries, run from the token to the answer.
use tci.Prelude.{◌≡◌, refl, true, some, none, [], ◌∷◌, find?}
use tci.Models.Enums.Types.{SyncRunStatus, RepositoryConnectionStatus, SignatureStatus}
use tci.Models.Rows.{RepositoryConnection, RepositoryEvent}
use tci.Persistence.SyncRuns.Succeeded.{HasSucceeded}
use tci.Services.Delivery.{create_event_or_get_concurrent_delivery}
use tci.Services.Once.{create_event_or_get-recorded, recorded, same_delivery}
use tci.Services.Safety.Process.{delivery_keeps_succeeded, inactive_changes_no_run}
use tci.Services.GitlabEvent.Rejection.{check_connection, rejected_draft}
use tci.Session.{Database, ok, err, problem, ProblemCode}
use tci.Services.GitlabEvent.{ProcessGitLabEventResult}
use tci.Services.GitlabEvent.Process.{process_gitlab_event}
use tci.Services.GitlabEvent.Process.Laws.{answer-IsDispatchable, IsDispatchable}
use tci.Persistence.Table.{no_clash, update_where}
use tci.Persistence.Events.{event_clash}
use tci.Tests.{app, platform, moment, push_command, with_runs, run_of}

abbrev quiet : Database
quiet = with_runs []

abbrev queued_answer : ProcessGitLabEventResult
queued_answer = record {
  event_id = 10;
  provider_delivery_id = "delivery-1";
  sync_run_id = some 11;
  should_enqueue_sync = true;
  dispatch_event_id = some 10;
}

push_queues :
    (process_gitlab_event platform moment (push_command (some "s3cret")) quiet).0 ≡ ok queued_answer
unfolding process_gitlab_event no_clash update_where event_clash
push_queues = refl

answer-IsDispatchable_example : IsDispatchable (some 11) true (some 10)
answer-IsDispatchable_example =
    answer-IsDispatchable platform moment (push_command (some "s3cret")) quiet queued_answer
      push_queues

wrong_token_fails :
    (process_gitlab_event platform moment (push_command (some "guess")) quiet).0
    ≡ err (problem ProblemCode.webhook_secret_mismatch)
unfolding process_gitlab_event no_clash update_where event_clash
wrong_token_fails = refl

abbrev finished : Database
finished = with_runs (run_of 21 SyncRunStatus.succeeded ∷ [])

delivery_keeps_succeeded_example :
    HasSucceeded 1 21
      (process_gitlab_event platform moment (push_command (some "s3cret")) finished).1.sync_runs
delivery_keeps_succeeded_example =
    delivery_keeps_succeeded platform moment (push_command (some "s3cret")) 1 21 finished refl

abbrev stopped_app : RepositoryConnection
stopped_app = record app { status = RepositoryConnectionStatus.reauth_required }

abbrev stopped : Database
stopped = record finished { connections = stopped_app ∷ [] }

stopped_is_found : (check_connection 1 stopped).0 ≡ ok stopped_app
unfolding check_connection
stopped_is_found = refl

inactive_changes_no_run_example :
    (process_gitlab_event platform moment (push_command (some "s3cret")) stopped).1.sync_runs
    ≡ stopped.sync_runs
inactive_changes_no_run_example =
    inactive_changes_no_run platform moment (push_command (some "s3cret")) stopped stopped_app
      stopped_is_found refl

abbrev draft : RepositoryEvent
draft = rejected_draft platform moment (push_command none) SignatureStatus.secret_mismatch

abbrev recorded_before : Database
recorded_before = record finished { events = record draft { id = 77 } ∷ [] }

one_event_consistent : no_clash event_clash recorded_before.events ≡ true
unfolding no_clash
one_event_consistent = refl

create_event_or_get-recorded_example :
    create_event_or_get_concurrent_delivery draft recorded_before
    ≡ recorded draft recorded_before (find? (same_delivery draft) recorded_before.events)
create_event_or_get-recorded_example =
    create_event_or_get-recorded draft recorded_before one_event_consistent refl
