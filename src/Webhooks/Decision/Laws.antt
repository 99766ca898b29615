-- ===== src/Webhooks/Decision/Laws.antt =====
-- When a provider event asks for a sync.
use tci.Prelude.{
  ◌≡◌, refl, ◌↔◌, ◌⊎◌, inl, inr, true, false, not, ◌&&◌, ◌||◌, Option, none, some, String, ◌==◌,
  string_eq, option_eq, arith, Bool-cases, if◌then◌else◌,
}
use tci.Models.Enums.Types.{ProviderEventType}
use tci.Models.Enums.Equality.{provider_event_type_eq}
use tci.Webhooks.Decision.{
  ProviderEventDecisionInput, decide_provider_event_processing, decide_by_head, is_one_of, differs,
  allowed_pull_request_actions, allowed_merge_request_actions, record_only,
}

-- The event types that move code, each with its own condition.
abbrev pub MovesCode : ProviderEventDecisionInput → ProviderEventType → Type 0
MovesCode i ProviderEventType.push = Unit
MovesCode i ProviderEventType.pull_request =
    is_one_of i.provider_action allowed_pull_request_actions ≡ true
MovesCode i ProviderEventType.merge_request =
    (is_one_of i.provider_action allowed_merge_request_actions ≡ true) × (i.is_code_moving ≡ true)
MovesCode i ProviderEventType.ping = false ≡ true
MovesCode i ProviderEventType.unknown = Unit

-- A head that is not the last one recorded, unless the delivery is retried, and that the remote
-- does not contradict.
abbrev pub IsCurrent : ProviderEventDecisionInput → Option String → Type 0
IsCurrent i none = false ≡ true
IsCurrent i (some head) =
    ((i.retryable_delivery ≡ true) ⊎ ((i.latest_cursor_head_sha == some head) ≡ false))
    × (differs i.resolved_current_head_sha head ≡ false)

abbrev pub AsksForSync : ProviderEventDecisionInput → Type 0
AsksForSync i =
    ((i.delivery_already_seen ≡ false) ⊎ (i.retryable_delivery ≡ true))
    × MovesCode i i.provider_event_type
    × IsCurrent i i.target_head_sha

decide_by_head_lem :
    (i : ProviderEventDecisionInput) (h : Option String)
    → ((decide_by_head i h).should_queue_sync ≡ true) ↔ IsCurrent i h
unfolding decide_by_head
decide_by_head_lem i none = (λ h. h, λ h. h)
decide_by_head_lem i (some head) = elim (Bool-cases i.retryable_delivery) [
  | inl retry ↦ (λ h. ground arith, λ h. ground arith)
  | inr once ↦ (λ h. ground arith, λ h. ground arith)
]

after_kind :
    (i : ProviderEventDecisionInput)
    → (i.delivery_already_seen && not i.retryable_delivery) ≡ false
    → ((decide_provider_event_processing i).should_queue_sync ≡ true) ↔ (
        MovesCode i i.provider_event_type
        × ((decide_by_head i i.target_head_sha).should_queue_sync ≡ true))
unfolding decide_provider_event_processing
after_kind i fresh = rw fresh (go i.provider_event_type)
  where
    go :
        (k : ProviderEventType)
        → ((if k == ProviderEventType.pull_request
                && not (is_one_of i.provider_action allowed_pull_request_actions)
              then record_only
              else if k == ProviderEventType.merge_request
                  && (not (is_one_of i.provider_action allowed_merge_request_actions)
                      || not i.is_code_moving)
              then record_only
              else if k == ProviderEventType.ping
              then record_only
              else decide_by_head i i.target_head_sha).should_queue_sync
            ≡ true)
          ↔ (MovesCode i k × ((decide_by_head i i.target_head_sha).should_queue_sync ≡ true))
    go ProviderEventType.push = (λ h. (tt, h), λ h. h.1)
    go ProviderEventType.pull_request = (λ h. ground arith, λ h. ground arith)
    go ProviderEventType.merge_request = (λ h. ground arith, λ h. ground arith)
    go ProviderEventType.ping = (λ h. cc, λ h. cc)
    go ProviderEventType.unknown = (λ h. (tt, h), λ h. h.1)

seen_never :
    (i : ProviderEventDecisionInput)
    → (i.delivery_already_seen && not i.retryable_delivery) ≡ true
    → (decide_provider_event_processing i).should_queue_sync ≡ false
unfolding decide_provider_event_processing
seen_never i replay = rw replay refl

-- An event asks for a sync exactly when its delivery is new or retried, its type and action move
-- code, its head is not the recorded one (unless retried), and the remote does not contradict it.
pub queues_iff :
    (i : ProviderEventDecisionInput)
    → ((decide_provider_event_processing i).should_queue_sync ≡ true) ↔ AsksForSync i
queues_iff i = elim (Bool-cases (i.delivery_already_seen && not i.retryable_delivery)) [
  | inl replay ↦ (λ h. cc (seen_never i replay, h), λ h. ground arith)
  | inr fresh ↦ (
    λ h.
        let k = (after_kind i fresh).0 h in
        (new_or_retried fresh, k.0, (decide_by_head_lem i i.target_head_sha).0 k.1),
    λ h. (after_kind i fresh).1 (h.1, (decide_by_head_lem i i.target_head_sha).1 h.2),
  )
]
  where
    new_or_retried :
        (i.delivery_already_seen && not i.retryable_delivery) ≡ false
        → (i.delivery_already_seen ≡ false) ⊎ (i.retryable_delivery ≡ true)
    new_or_retried fresh = ground arith
