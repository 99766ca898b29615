-- ===== src/Webhooks/GithubEvents.antt =====
-- infrastructure/webhooks/github_event_parser.py. The helpers `_read_nullable_string` and
-- `_read_ref_name` have the same body as those of gitlab_event_parser.py, and the same limit.
pub mod Laws
use Prim.Native.String.{◌++◌ as concat}
use tci.Prelude.{Bool, true, false, Option, none, some, String, if◌then◌else◌, ◌==◌, string_eq}
use tci.Prelude.Text.{strip_prefix}
use tci.Models.Enums.Types.{
  ProviderEventType, DomainEventType, EventTargetKind, RefType, SyncTriggerType,
}
use tci.Models.Rows.{Instant}
use tci.Session.{Result, ok, err, value_error}
use tci.Webhooks.Json.{Json, Members, text, object, get_key, ◌orelse◌, members_or_empty, no_members}
use tci.Webhooks.GitlabEvents.{str, read_nullable_string, read_ref_name}

pub record ParsedGitHubEvent : Type 0 where
  pub provider_event_type : ProviderEventType
  pub provider_action : Option String
  pub domain_event_type : DomainEventType
  pub target_kind : EventTargetKind
  pub repository_full_name : Option String
  pub target_key : String
  pub target_ref_name : Option String
  pub target_head_sha : Option String
  pub requested_ref_type : Option RefType
  pub requested_ref_name : Option String
  pub trigger_type : Option SyncTriggerType
  pub occurred_at : Instant

-- `_read_ref_name` on the rest of the ref, which must not be empty.
abbrev pub named_ref : RefType → Result (Option String) → Result (RefType × String)
named_ref ref_type (err e) = err e
named_ref ref_type (ok none) = err value_error
named_ref ref_type (ok (some name)) = if name == "" then err value_error else ok (ref_type, name)

abbrev pub tag_ref : Option String → Result (RefType × String)
tag_ref none = err value_error
tag_ref (some name) = named_ref RefType.tag (read_ref_name (some name))

abbrev pub push_ref : Option String → Option String → Result (RefType × String)
push_ref (some name) tag = named_ref RefType.branch (read_ref_name (some name))
push_ref none tag = tag_ref tag

-- `_read_github_push_ref`
unfoldable pub read_github_push_ref : Json → Result (RefType × String)
unfolding strip_prefix read_ref_name
read_github_push_ref (text value) =
    push_ref (strip_prefix "refs/heads/" value) (strip_prefix "refs/tags/" value)
read_github_push_ref _ = err value_error

module _ (show_container : Json → String) where
  -- `payload.get(key) or {}`, and `{}` for what is no dict.
  abbrev pub dict_of : Members → String → Members
  dict_of payload key = members_or_empty (get_key payload key orelse object no_members)

  abbrev pub github_full_name : Members → Option String
  github_full_name payload =
      read_nullable_string show_container (get_key (dict_of payload "repository") "full_name")

  abbrev pub github_push_event : Members → Instant → RefType × String → ParsedGitHubEvent
  github_push_event payload received_at (ref_type, ref_name) = record {
    provider_event_type = ProviderEventType.push;
    provider_action = none;
    domain_event_type = DomainEventType.push_received;
    target_kind = EventTargetKind.default_ref;
    repository_full_name = github_full_name payload;
    target_key = "default_ref";
    target_ref_name = some ref_name;
    target_head_sha = read_nullable_string show_container (get_key payload "after");
    requested_ref_type = some ref_type;
    requested_ref_name = some ref_name;
    trigger_type = some SyncTriggerType.webhook_push;
    occurred_at = received_at;
  }

  abbrev pub on_github_push :
      Members → Instant → Result (RefType × String) → Result ParsedGitHubEvent
  on_github_push payload received_at (err e) = err e
  on_github_push payload received_at (ok ref) = ok (github_push_event payload received_at ref)

  abbrev pub head_of : Members → Members
  head_of payload = dict_of (dict_of payload "pull_request") "head"

  abbrev pub pull_request_event : Members → Instant → Option String → ParsedGitHubEvent
  pull_request_event payload received_at head_ref = record {
    provider_event_type = ProviderEventType.pull_request;
    provider_action = read_nullable_string show_container (get_key payload "action");
    domain_event_type = DomainEventType.pr_received;
    target_kind = EventTargetKind.pull_request_source;
    repository_full_name = github_full_name payload;
    target_key = concat "pr:" (str show_container (get_key payload "number"));
    target_ref_name = head_ref;
    target_head_sha = read_nullable_string show_container (get_key (head_of payload) "sha");
    requested_ref_type = some RefType.pull_request_branch;
    requested_ref_name = head_ref;
    trigger_type = some SyncTriggerType.webhook_pull_request;
    occurred_at = received_at;
  }

  abbrev pub on_pull_request : Members → Instant → Result (Option String) → Result ParsedGitHubEvent
  on_pull_request payload received_at (err e) = err e
  on_pull_request payload received_at (ok head_ref) =
      ok (pull_request_event payload received_at head_ref)

  abbrev pub unknown_github_event : Members → Instant → ParsedGitHubEvent
  unknown_github_event payload received_at = record {
    provider_event_type = ProviderEventType.unknown;
    provider_action = none;
    domain_event_type = DomainEventType.signature_rejected;
    target_kind = EventTargetKind.none_target;
    repository_full_name = github_full_name payload;
    target_key = "none";
    target_ref_name = none;
    target_head_sha = none;
    requested_ref_type = none;
    requested_ref_name = none;
    trigger_type = none;
    occurred_at = received_at;
  }

  unfoldable pub parse_github_event_payload : String → Members → Instant → Result ParsedGitHubEvent
  unfolding get_key read_github_push_ref read_ref_name
  parse_github_event_payload event_name payload received_at =
      if event_name == "push"
      then on_github_push payload received_at (read_github_push_ref (get_key payload "ref"))
      else if event_name == "pull_request"
      then on_pull_request payload received_at
          (read_ref_name (read_nullable_string show_container (get_key (head_of payload) "ref")))
      else ok (unknown_github_event payload received_at)
