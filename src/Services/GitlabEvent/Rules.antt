-- ===== src/Services/GitlabEvent/Rules.antt =====
-- The pure rules of domain/services/process_gitlab_event.py.
use Prim.Native.String.{◌++◌ as concat}
use tci.Prelude.{
  ℕ, ◌-◌, ◌+◌, Bool, true, false, not, ◌&&◌, ◌||◌, Option, none, some, [], ◌∷◌, String,
  if◌then◌else◌, ◌==◌, string_eq, option_eq, leb, nat_eq,
}
use tci.Prelude.Text.{strip_prefix, len, take_chars}
use tci.Models.Enums.Types.{
  ProviderEventType, RefType, DefaultRefType, ProcessingDecision, RepositoryConnectionStatus,
  EventProcessingStatus,
}
use tci.Models.Enums.Equality.{
  provider_event_type_eq, connection_status_eq, ref_type_eq, default_ref_type_eq,
}
use tci.Models.Rows.{RepositoryConnection}
use tci.Session.{Result, ok, err, runtime_error, git_auth_error, git_ref_not_found_error, problem}
use tci.Persistence.SyncRuns.{key_or_name}
use tci.Webhooks.Decision.{is_one_of, ProviderEventDecisionOutcome, record_only}
use tci.Webhooks.GitlabEvents.{ParsedProviderEvent}
use tci.Services.Platform.{Platform}

-- `_resolver_ref_type`
abbrev resolver_ref_type : ParsedProviderEvent → DefaultRefType
resolver_ref_type event =
    if event.requested_ref_type == some RefType.tag
    then DefaultRefType.tag
    else DefaultRefType.branch

-- The three errors that stand for an unknown head; a RepositoryConnectionProblem is a RuntimeError.
abbrev head_or_none : Result String → Result (Option String)
head_or_none (ok sha) = ok (some sha)
head_or_none (err git_auth_error) = ok none
head_or_none (err git_ref_not_found_error) = ok none
head_or_none (err runtime_error) = ok none
head_or_none (err (problem code)) = ok none
head_or_none (err e) = err e

abbrev resolve_named :
    Platform
    → RepositoryConnection
    → ParsedProviderEvent
    → Option String
    → Option String
    → Result (Option String)
resolve_named p connection event (some head) (some name) =
    head_or_none (p.resolve connection.remote_url (resolver_ref_type event) name)
resolve_named p connection event _ _ = ok none

-- `_resolve_current_head_sha`
unfoldable pub resolve_current_head_sha :
    Platform → RepositoryConnection → ParsedProviderEvent → Result (Option String)
resolve_current_head_sha p connection event =
    resolve_named p connection event event.target_head_sha event.requested_ref_name

unfoldable pub expected_full_name : RepositoryConnection → String
expected_full_name connection =
    key_or_name connection.provider_project_path
      (concat connection.repository_owner (concat "/" connection.repository_name))

abbrev is_missing : Option String → Bool
is_missing none = true
is_missing (some name) = name == ""

abbrev is_other : String → Option String → Bool
is_other expected none = false
is_other expected (some name) = not (name == expected)

abbrev text_or : Option String → String → String
text_or none s = s
text_or (some t) s = t

-- `mr_identifier.isdecimal() and int(mr_identifier) > 0`
abbrev is_identifier : Platform → String → Bool
is_identifier p text = p.isdecimal text && leb 1 (p.int text)

-- `_validate_repository_match`: whether it raises its invalid_input problem.
unfoldable pub repository_mismatch : Platform → RepositoryConnection → ParsedProviderEvent → Bool
unfolding expected_full_name strip_prefix
repository_mismatch p connection event =
    ((event.provider_event_type == ProviderEventType.push
        || event.provider_event_type == ProviderEventType.merge_request)
      && is_missing event.repository_full_name)
    || is_other (expected_full_name connection) event.repository_full_name
    || (event.provider_event_type == ProviderEventType.merge_request
        && (event.target_key == "mr:None"
            || not
                (is_identifier p (text_or (strip_prefix "mr:" event.target_key) event.target_key))))

abbrev as_ref_type : DefaultRefType → RefType
as_ref_type DefaultRefType.branch = RefType.branch
as_ref_type DefaultRefType.tag = RefType.tag

-- `_effective_provider_event_type`: a push of another ref than the default one counts as a ping.
unfoldable pub effective_provider_event_type :
    RepositoryConnection → ParsedProviderEvent → ProviderEventType
effective_provider_event_type connection event =
    if event.provider_event_type == ProviderEventType.push
      && (not (some (as_ref_type connection.default_ref_type) == event.requested_ref_type)
          || not (event.requested_ref_name == some connection.default_ref_name))
    then ProviderEventType.ping
    else event.provider_event_type

abbrev head_moved : Option String → Option String → Bool
head_moved none target = false
head_moved (some latest) target = not (target == some latest)

-- `_is_code_moving`
unfoldable pub is_code_moving : ParsedProviderEvent → Option String → Bool
is_code_moving event latest_cursor_head_sha =
    if not (event.provider_event_type == ProviderEventType.merge_request)
    then event.is_code_moving
    else if is_one_of event.provider_action ("open" ∷ "opened" ∷ "reopen" ∷ "reopened" ∷ [])
    then true
    else if not (is_one_of event.provider_action ("update" ∷ "updated" ∷ []))
    then false
    else event.is_code_moving || head_moved latest_cursor_head_sha event.target_head_sha

-- `_sync_run_ref_key`
abbrev pub sync_run_ref_key : ParsedProviderEvent → String
sync_run_ref_key event =
    if not (event.target_key == "") && not (event.target_key == "default_ref")
    then event.target_key
    else text_or event.requested_ref_name ""

-- `_is_unsupported_fork_merge_request`
unfoldable pub is_unsupported_fork : RepositoryConnection → ParsedProviderEvent → Bool
unfolding expected_full_name
is_unsupported_fork connection event =
    event.provider_event_type == ProviderEventType.merge_request
    && is_other (expected_full_name connection) event.source_project_path

-- The two overrides after the decision: an inactive connection and a fork are only recorded.
abbrev pub override :
    RepositoryConnection
    → ParsedProviderEvent
    → ProviderEventDecisionOutcome
    → ProviderEventDecisionOutcome
override connection event decision =
    if not (connection.status == RepositoryConnectionStatus.active)
      || is_unsupported_fork connection event
    then record_only
    else decision

-- `_should_mark_webhook_healthy`
abbrev pub should_mark_webhook_healthy : ProviderEventDecisionOutcome → Bool
should_mark_webhook_healthy decision = elim decision.processing_decision [
  | ProcessingDecision.rejected ↦ false
  | _ ↦ true
]

abbrev pub status_of : ProviderEventDecisionOutcome → EventProcessingStatus
status_of decision =
    if decision.should_queue_sync
    then EventProcessingStatus.queued
    else EventProcessingStatus.completed

-- `s[:total - used]`: where the difference is negative, the end of the text is cut off.
abbrev slice_to : ℕ → ℕ → String → String
slice_to total used s =
    if leb used total then take_chars (total - used) s else take_chars (len s - (used - total)) s

-- `_commit_delivery_id`
unfoldable pub commit_delivery_id : Platform → String → String → String
unfolding len take_chars
commit_delivery_id p delivery_id commit_sha =
    let suffix = concat ":commit:" commit_sha in
    let digest = take_chars 16 (p.sha256_hexdigest delivery_id) in
    if leb (len delivery_id + len suffix) 255
    then concat delivery_id suffix
    else concat (slice_to 255 (len suffix + len digest + 1) delivery_id)
        (concat ":" (concat digest suffix))
