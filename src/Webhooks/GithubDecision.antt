-- ===== src/Webhooks/GithubDecision.antt =====
-- `decide_github_event_processing` of domain/services/process_github_event.py. GitHubDecisionOutcome
-- has the fields of ProviderEventDecisionOutcome, and stands as that record.
pub mod Laws
use tci.Prelude.{
  Bool, true, false, not, ◌&&◌, Option, none, some, String, ◌==◌, string_eq, option_eq,
  if◌then◌else◌, List, [], ◌∷◌,
}
use tci.Models.Enums.Types.{ProviderEventType, ProcessingDecision}
use tci.Models.Enums.Equality.{provider_event_type_eq}
use tci.Webhooks.Decision.{ProviderEventDecisionOutcome, is_one_of, differs, record_only}

-- ALLOWED_PULL_REQUEST_ACTIONS of this file.
abbrev pub github_pull_request_actions : List String
github_pull_request_actions = "opened" ∷ "reopened" ∷ "synchronize" ∷ "ready_for_review" ∷ []

pub record GitHubDecisionInput : Type 0 where
  pub provider_event_type : ProviderEventType
  pub provider_action : Option String
  pub target_head_sha : Option String
  pub delivery_already_seen : Bool
  pub latest_cursor_head_sha : Option String
  pub resolved_current_head_sha : Option String
  pub retryable_delivery : Bool

-- The tests of the head, once there is one.
unfoldable pub decide_github_by_head :
    GitHubDecisionInput → Option String → ProviderEventDecisionOutcome
decide_github_by_head i none = record_only
decide_github_by_head i (some head) =
    if not i.retryable_delivery && i.latest_cursor_head_sha == some head
    then record {
      processing_decision = ProcessingDecision.duplicate_head;
      should_queue_sync = false;
    }
    else if differs i.resolved_current_head_sha head
    then record { processing_decision = ProcessingDecision.stale_head; should_queue_sync = false }
    else record { processing_decision = ProcessingDecision.queued; should_queue_sync = true }

unfoldable pub decide_github_event_processing : GitHubDecisionInput → ProviderEventDecisionOutcome
unfolding decide_github_by_head
decide_github_event_processing i =
    if i.delivery_already_seen && not i.retryable_delivery
    then record {
      processing_decision = ProcessingDecision.duplicate_delivery;
      should_queue_sync = false;
    }
    else if i.provider_event_type == ProviderEventType.pull_request
        && not (is_one_of i.provider_action github_pull_request_actions)
    then record_only
    else if i.provider_event_type == ProviderEventType.ping
    then record_only
    else decide_github_by_head i i.target_head_sha
