-- ===== src/Webhooks/Decision.antt =====
-- domain/services/repository_event_processing.py. The strings of the event types and of the
-- decisions stand for the members of the enumerations.
pub mod Laws
use tci.Prelude.{
  Bool, true, false, not, ◌&&◌, ◌||◌, Option, none, some, String, ◌==◌, string_eq, option_eq,
  if◌then◌else◌, List, [], ◌∷◌, any,
}
use tci.Models.Enums.Types.{ProviderEventType, ProcessingDecision}
use tci.Models.Enums.Equality.{provider_event_type_eq}

abbrev pub allowed_pull_request_actions : List String
allowed_pull_request_actions = "opened" ∷ "reopened" ∷ "synchronize" ∷ "ready_for_review" ∷ []

abbrev pub allowed_merge_request_actions : List String
allowed_merge_request_actions =
    "open" ∷ "opened" ∷ "reopen" ∷ "reopened" ∷ "update" ∷ "updated" ∷ []

pub record ProviderEventDecisionInput : Type 0 where
  pub provider_event_type : ProviderEventType
  pub provider_action : Option String
  pub target_head_sha : Option String
  pub delivery_already_seen : Bool
  pub latest_cursor_head_sha : Option String
  pub resolved_current_head_sha : Option String
  pub retryable_delivery : Bool
  pub is_code_moving : Bool

pub record ProviderEventDecisionOutcome : Type 0 where
  pub processing_decision : ProcessingDecision
  pub should_queue_sync : Bool

-- `action in actions`, where the action may be None.
abbrev pub is_one_of : Option String → List String → Bool
is_one_of none actions = false
is_one_of (some action) actions = any (λ a. action == a) actions

-- `x is not None and y != x`
abbrev pub differs : Option String → String → Bool
differs none head = false
differs (some resolved) head = not (head == resolved)

abbrev pub record_only : ProviderEventDecisionOutcome
record_only = record {
  processing_decision = ProcessingDecision.record_only;
  should_queue_sync = false;
}

-- The tests of the head, once there is one.
unfoldable pub decide_by_head :
    ProviderEventDecisionInput → Option String → ProviderEventDecisionOutcome
decide_by_head i none = record_only
decide_by_head i (some head) =
    if not i.retryable_delivery && i.latest_cursor_head_sha == some head
    then record {
      processing_decision = ProcessingDecision.duplicate_head;
      should_queue_sync = false;
    }
    else if differs i.resolved_current_head_sha head
    then record { processing_decision = ProcessingDecision.stale_head; should_queue_sync = false }
    else record { processing_decision = ProcessingDecision.queued; should_queue_sync = true }

unfoldable pub decide_provider_event_processing :
    ProviderEventDecisionInput → ProviderEventDecisionOutcome
unfolding decide_by_head
decide_provider_event_processing i =
    if i.delivery_already_seen && not i.retryable_delivery
    then record {
      processing_decision = ProcessingDecision.duplicate_delivery;
      should_queue_sync = false;
    }
    else if i.provider_event_type == ProviderEventType.pull_request
        && not (is_one_of i.provider_action allowed_pull_request_actions)
    then record_only
    else if i.provider_event_type == ProviderEventType.merge_request
        && (not (is_one_of i.provider_action allowed_merge_request_actions) || not i.is_code_moving)
    then record_only
    else if i.provider_event_type == ProviderEventType.ping
    then record_only
    else decide_by_head i i.target_head_sha
