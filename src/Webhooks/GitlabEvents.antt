-- ===== src/Webhooks/GitlabEvents.antt =====
-- infrastructure/webhooks/provider_event_types.py and gitlab_event_parser.py. `str` of a list or an
-- object is a parameter; a ValueError is `err value_error`.
pub mod CommitShas
pub mod Laws
use Prim.Native.String.{◌++◌ as concat}
use tci.Prelude.{
  ℕ, ◌++◌, Bool, true, false, not, ◌&&◌, ◌||◌, Option, none, some, List, [], ◌∷◌, String, ltb, any,
  if◌then◌else◌, ◌==◌, string_eq, option_eq, is_some,
}
use tci.Prelude.Text.{strip_prefix, len}
use tci.Models.Enums.Types.{
  ProviderEventType, DomainEventType, EventTargetKind, RefType, SyncTriggerType,
}
use tci.Models.Rows.{Instant}
use tci.Session.{Result, ok, err, value_error, Error}
use tci.Webhooks.Decision.{is_one_of}
use tci.Webhooks.Json.{
  Json, Members, null, boolean, number, text, array, object, get_key, is_truthy, ◌orelse◌,
  members_or_empty, Items, no_items, item,
}

pub record ParsedProviderEvent : Type 0 where
  pub provider_event_type : ProviderEventType
  pub provider_action : Option String
  pub domain_event_type : DomainEventType
  pub target_kind : EventTargetKind
  pub repository_full_name : Option String
  pub target_key : String
  pub target_ref_name : Option String
  pub target_head_sha : Option String
  pub requested_ref_type : Option RefType
  pub requested_ref_name : Option String
  pub trigger_type : Option SyncTriggerType
  pub occurred_at : Instant
  pub is_code_moving : Bool
  pub source_project_path : Option String
  pub commit_shas : List String

abbrev pub max_gitlab_ref_name_chars : ℕ
max_gitlab_ref_name_chars = 255

-- `"0" * 40`
abbrev pub zero_sha : String
zero_sha = "0000000000000000000000000000000000000000"

abbrev pub push_hook : String
push_hook = "Push Hook"

abbrev pub tag_push_hook : String
tag_push_hook = "Tag Push Hook"

abbrev pub merge_request_hook : String
merge_request_hook = "Merge Request Hook"

abbrev expected_kind : String → Option String
expected_kind event_name =
    if event_name == push_hook
    then some "push"
    else if event_name == tag_push_hook
    then some "tag_push"
    else if event_name == merge_request_hook
    then some "merge_request"
    else none

abbrev kinds : List String
kinds = "push" ∷ "tag_push" ∷ "merge_request" ∷ []

abbrev kind_differs : Option String → Option String → Bool
kind_differs none object_kind = false
kind_differs (some expected) none = false
kind_differs (some expected) (some kind) = not (kind == expected)

-- `_validate_event_kind`: whether it raises.
abbrev pub kind_mismatch : String → Option String → Bool
kind_mismatch event_name object_kind =
    kind_differs (expected_kind event_name) object_kind
    || (is_one_of object_kind kinds && not (is_some (expected_kind event_name)))

-- `_read_ref_name`, on what `_read_nullable_string` returns.
unfoldable pub read_ref_name : Option String → Result (Option String)
unfolding len
read_ref_name none = ok none
read_ref_name (some name) =
    if ltb max_gitlab_ref_name_chars (len name) then err value_error else ok (some name)

abbrev nonempty : Result (Option String) → Result String
nonempty (err e) = err e
nonempty (ok none) = err value_error
nonempty (ok (some name)) = if name == "" then err value_error else ok name

abbrev read_rest : Option String → Result String
read_rest none = err value_error
read_rest (some name) = nonempty (read_ref_name (some name))

-- `_read_gitlab_ref`
unfoldable pub read_gitlab_ref : Json → String → Result String
unfolding strip_prefix read_ref_name
read_gitlab_ref (text value) prefix = read_rest (strip_prefix prefix value)
read_gitlab_ref _ prefix = err value_error

abbrev pub drop_zero : Option String → Option String
drop_zero none = none
drop_zero (some sha) = if sha == zero_sha then none else some sha

module _ (show_container : Json → String) where
  -- `str(value)`, for the f-strings and for `_read_nullable_string`.
  abbrev pub str : Json → String
  str null = "None"
  str (boolean true) = "True"
  str (boolean false) = "False"
  str (number literal) = literal
  str (text s) = s
  str (array items) = show_container (array items)
  str (object members) = show_container (object members)

  abbrev pub read_nullable_string : Json → Option String
  read_nullable_string null = none
  read_nullable_string v = some (str v)

  abbrev pub read_git_head_sha : Json → Option String
  read_git_head_sha v = drop_zero (read_nullable_string v)

  abbrev path_of : Json → Option String
  path_of (object project) =
      read_nullable_string
        (get_key project "path_with_namespace" orelse get_key project "full_path")
  path_of _ = none

  abbrev empty_object : Json
  empty_object = object Members.no_members

  unfoldable pub repository_full_name : Members → Option String
  unfolding get_key
  repository_full_name payload =
      path_of (get_key payload "project" orelse get_key payload "repository" orelse empty_object)

  abbrev source_project_path : Members → Option String
  source_project_path payload = path_of (get_key payload "source_project" orelse empty_object)

  -- `shas.append(sha)` unless it is None or there.
  abbrev pub append_new : List String → Option String → List String
  append_new shas none = shas
  append_new shas (some sha) = if any (λ s. sha == s) shas then shas else shas ++ (sha ∷ [])

  abbrev pub commit_sha_of : Json → Option String
  commit_sha_of (object commit) = read_git_head_sha (get_key commit "id")
  commit_sha_of _ = none

  -- The loop of `_commit_shas_from_push`.
  unfoldable pub collect_shas : List String → Items → List String
  collect_shas shas no_items = shas
  collect_shas shas (item commit rest) = collect_shas (append_new shas (commit_sha_of commit)) rest

  abbrev pub commit_shas_of : Json → List String
  commit_shas_of (array commits) = collect_shas [] commits
  commit_shas_of _ = []

  abbrev pub commit_shas_from_push : Members → List String
  commit_shas_from_push payload = commit_shas_of (get_key payload "commits")

  abbrev head_commit : Option String → List String
  head_commit none = []
  head_commit (some sha) = sha ∷ []

  abbrev pub push_event : Members → Instant → RefType → String → ParsedProviderEvent
  push_event payload occurred_at ref_type ref_name = record {
    provider_event_type = ProviderEventType.push;
    provider_action = none;
    domain_event_type = DomainEventType.push_received;
    target_kind = EventTargetKind.default_ref;
    repository_full_name = repository_full_name payload;
    target_key = "default_ref";
    target_ref_name = some ref_name;
    target_head_sha =
        read_git_head_sha (get_key payload "checkout_sha" orelse get_key payload "after");
    requested_ref_type = some ref_type;
    requested_ref_name = some ref_name;
    trigger_type = some SyncTriggerType.webhook_push;
    occurred_at = occurred_at;
    is_code_moving = true;
    source_project_path = none;
    commit_shas = commit_shas_from_push payload;
  }

  abbrev on_push : Members → Instant → RefType → Result String → Result ParsedProviderEvent
  on_push payload occurred_at ref_type (ok ref_name) =
      ok (push_event payload occurred_at ref_type ref_name)
  on_push payload occurred_at ref_type (err e) = err e

  abbrev moving_actions : List String
  moving_actions = "open" ∷ "opened" ∷ "reopen" ∷ "reopened" ∷ []

  abbrev update_actions : List String
  update_actions = "update" ∷ "updated" ∷ []

  abbrev pub merge_request_event : Members → Instant → Members → Option String → ParsedProviderEvent
  merge_request_event payload occurred_at attributes source_branch =
      let action = read_nullable_string (get_key attributes "action") in
      let head =
        read_git_head_sha (get_key (members_or_empty (get_key attributes "last_commit")) "id") in
      record {
        provider_event_type = ProviderEventType.merge_request;
        provider_action = action;
        domain_event_type = DomainEventType.mr_received;
        target_kind = EventTargetKind.merge_request_source;
        repository_full_name = repository_full_name payload;
        target_key = concat "mr:" (str (get_key attributes "iid"));
        target_ref_name = source_branch;
        target_head_sha = head;
        requested_ref_type = some RefType.branch;
        requested_ref_name = source_branch;
        trigger_type = some SyncTriggerType.webhook_merge_request;
        occurred_at = occurred_at;
        is_code_moving =
            is_one_of action moving_actions
            || (is_one_of action update_actions
                && is_some (read_nullable_string (get_key attributes "oldrev")));
        source_project_path = source_project_path payload;
        commit_shas = head_commit head;
      }

  abbrev on_merge_request :
      Members → Instant → Members → Result (Option String) → Result ParsedProviderEvent
  on_merge_request payload occurred_at attributes (ok source_branch) =
      ok (merge_request_event payload occurred_at attributes source_branch)
  on_merge_request payload occurred_at attributes (err e) = err e

  abbrev pub unknown_event : Members → Instant → ParsedProviderEvent
  unknown_event payload occurred_at = record {
    provider_event_type = ProviderEventType.unknown;
    provider_action = none;
    domain_event_type = DomainEventType.signature_rejected;
    target_kind = EventTargetKind.none_target;
    repository_full_name = repository_full_name payload;
    target_key = "none";
    target_ref_name = none;
    target_head_sha = none;
    requested_ref_type = none;
    requested_ref_name = none;
    trigger_type = none;
    occurred_at = occurred_at;
    is_code_moving = false;
    source_project_path = none;
    commit_shas = [];
  }

  unfoldable pub parse_gitlab_event_payload :
      String → Members → Instant → Result ParsedProviderEvent
  unfolding get_key read_gitlab_ref repository_full_name collect_shas
  parse_gitlab_event_payload event_name payload received_at =
      let kind = read_nullable_string (get_key payload "object_kind") in
      let attributes = members_or_empty (get_key payload "object_attributes") in
      if kind_mismatch event_name kind
      then err value_error
      else if event_name == push_hook || kind == some "push"
      then on_push payload received_at RefType.branch
          (read_gitlab_ref (get_key payload "ref") "refs/heads/")
      else if event_name == tag_push_hook || kind == some "tag_push"
      then on_push payload received_at RefType.tag
          (read_gitlab_ref (get_key payload "ref") "refs/tags/")
      else if event_name == merge_request_hook || kind == some "merge_request"
      then on_merge_request payload received_at attributes
          (read_ref_name (read_nullable_string (get_key attributes "source_branch")))
      else ok (unknown_event payload received_at)
