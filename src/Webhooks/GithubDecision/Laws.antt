-- ===== src/Webhooks/GithubDecision/Laws.antt =====
-- When a GitHub event asks for a sync.
use tci.Prelude.{
  ◌≡◌, refl, ◌↔◌, ◌⊎◌, inl, inr, true, false, not, ◌&&◌, Option, none, some, String, [], ◌∷◌, ◌==◌,
  string_eq, option_eq, arith, Bool-cases, if◌then◌else◌,
}
use tci.Models.Enums.Types.{ProviderEventType}
use tci.Models.Enums.Equality.{provider_event_type_eq}
use tci.Webhooks.Decision.{is_one_of, differs, record_only}
use tci.Webhooks.GithubDecision.{
  GitHubDecisionInput, decide_github_event_processing, decide_github_by_head,
  github_pull_request_actions,
}

-- The event types that move code, a pull request by its action.
abbrev pub MovesGithubCode : Option String → ProviderEventType → Type 0
MovesGithubCode action ProviderEventType.push = Unit
MovesGithubCode action ProviderEventType.pull_request =
    is_one_of action ("opened" ∷ "reopened" ∷ "synchronize" ∷ "ready_for_review" ∷ []) ≡ true
MovesGithubCode action ProviderEventType.merge_request = Unit
MovesGithubCode action ProviderEventType.ping = false ≡ true
MovesGithubCode action ProviderEventType.unknown = Unit

-- A head that is not the last one recorded, unless the delivery is retried, and that the remote
-- does not contradict.
abbrev pub IsCurrentHead : GitHubDecisionInput → Option String → Type 0
IsCurrentHead i none = false ≡ true
IsCurrentHead i (some head) =
    ((i.retryable_delivery ≡ true) ⊎ ((i.latest_cursor_head_sha == some head) ≡ false))
    × (differs i.resolved_current_head_sha head ≡ false)

abbrev pub AsksForGithubSync : GitHubDecisionInput → Type 0
AsksForGithubSync i =
    ((i.delivery_already_seen ≡ false) ⊎ (i.retryable_delivery ≡ true))
    × MovesGithubCode i.provider_action i.provider_event_type
    × IsCurrentHead i i.target_head_sha

by_head_lem :
    (i : GitHubDecisionInput) (h : Option String)
    → ((decide_github_by_head i h).should_queue_sync ≡ true) ↔ IsCurrentHead i h
unfolding decide_github_by_head
by_head_lem i none = (λ h. h, λ h. h)
by_head_lem i (some head) = elim (Bool-cases i.retryable_delivery) [
  | inl retry ↦ (λ h. ground arith, λ h. ground arith)
  | inr once ↦ (λ h. ground arith, λ h. ground arith)
]

after_kind :
    (i : GitHubDecisionInput)
    → (i.delivery_already_seen && not i.retryable_delivery) ≡ false
    → ((decide_github_event_processing i).should_queue_sync ≡ true) ↔ (
        MovesGithubCode i.provider_action i.provider_event_type
        × ((decide_github_by_head i i.target_head_sha).should_queue_sync ≡ true))
unfolding decide_github_event_processing
after_kind i fresh = rw fresh (go i.provider_event_type)
  where
    go :
        (k : ProviderEventType)
        → ((if k == ProviderEventType.pull_request
                && not (is_one_of i.provider_action github_pull_request_actions)
              then record_only
              else if k == ProviderEventType.ping
              then record_only
              else decide_github_by_head i i.target_head_sha).should_queue_sync
            ≡ true)
          ↔ (MovesGithubCode i.provider_action k
              × ((decide_github_by_head i i.target_head_sha).should_queue_sync ≡ true))
    go ProviderEventType.push = (λ h. (tt, h), λ h. h.1)
    go ProviderEventType.pull_request = (λ h. ground arith, λ h. ground arith)
    go ProviderEventType.merge_request = (λ h. (tt, h), λ h. h.1)
    go ProviderEventType.ping = (λ h. cc, λ h. cc)
    go ProviderEventType.unknown = (λ h. (tt, h), λ h. h.1)

seen_never :
    (i : GitHubDecisionInput)
    → (i.delivery_already_seen && not i.retryable_delivery) ≡ true
    → (decide_github_event_processing i).should_queue_sync ≡ false
unfolding decide_github_event_processing
seen_never i replay = rw replay refl

-- A GitHub event asks for a sync exactly when its delivery is new or retried, it is no ping, it is
-- opened, reopened, synchronize or ready_for_review if it is a pull request, its head is not the
-- recorded one (unless retried), and the remote does not contradict the head.
pub github_queues_iff :
    (i : GitHubDecisionInput)
    → ((decide_github_event_processing i).should_queue_sync ≡ true) ↔ AsksForGithubSync i
github_queues_iff i = elim (Bool-cases (i.delivery_already_seen && not i.retryable_delivery)) [
  | inl replay ↦ (λ h. cc (seen_never i replay, h), λ h. ground arith)
  | inr fresh ↦ (
    λ h.
        let k = (after_kind i fresh).0 h in
        (new_or_retried fresh, k.0, (by_head_lem i i.target_head_sha).0 k.1),
    λ h. (after_kind i fresh).1 (h.1, (by_head_lem i i.target_head_sha).1 h.2),
  )
]
  where
    new_or_retried :
        (i.delivery_already_seen && not i.retryable_delivery) ≡ false
        → (i.delivery_already_seen ≡ false) ⊎ (i.retryable_delivery ≡ true)
    new_or_retried fresh = ground arith
