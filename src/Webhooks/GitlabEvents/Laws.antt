-- ===== src/Webhooks/GitlabEvents/Laws.antt =====
-- What the rest of the program may rely on in a parsed GitLab event.
use tci.Prelude.{
  ◌≡◌, ◌≤◌, refl, Bool, true, false, ◌||◌, Option, none, some, String, arith, ltb, if◌then◌else◌,
  ◌==◌, string_eq, option_eq, Bool-cases, inl, inr,
}
use tci.Prelude.Text.{strip_prefix, len}
use tci.Models.Enums.Types.{RefType, SyncTriggerType}
use tci.Models.Rows.{Instant}
use tci.Session.{Result, ok, err, value_error}
use tci.Webhooks.Json.{
  Json, Members, null, boolean, number, text, array, object, get_key, members_or_empty,
}
use tci.Webhooks.GitlabEvents.{
  ParsedProviderEvent, max_gitlab_ref_name_chars, read_ref_name, read_gitlab_ref, read_rest,
  read_nullable_string, kind_mismatch, push_hook, tag_push_hook, merge_request_hook, on_push,
  on_merge_request, parse_gitlab_event_payload, nonempty,
}

abbrev pub NameFits : Option String → Type 0
NameFits none = Unit
NameFits (some name) = len name ≤ max_gitlab_ref_name_chars

abbrev pub FitsOrFails : Result (Option String) → Type 0
FitsOrFails (err e) = e ≡ value_error
FitsOrFails (ok name) = NameFits name

abbrev pub RefOrFails : Result String → Type 0
RefOrFails (err e) = e ≡ value_error
RefOrFails (ok name) = (len name ≤ max_gitlab_ref_name_chars) × ((name == "") ≡ false)

-- What an event says of the ref to sync: a push names one, and a merge request names its source
-- branch, unless the payload gives none.
abbrev pub RefFits : Option SyncTriggerType → Option RefType → Option String → Type 0
RefFits none ref_type name = (ref_type ≡ none) × (name ≡ none)
RefFits (some SyncTriggerType.webhook_push) (some ref_type) (some name) =
    (len name ≤ max_gitlab_ref_name_chars) × ((name == "") ≡ false)
RefFits (some SyncTriggerType.webhook_merge_request) ref_type name =
    (ref_type ≡ some RefType.branch) × NameFits name
RefFits _ ref_type name = false ≡ true

abbrev pub IsUsable : Result ParsedProviderEvent → Type 0
IsUsable (err e) = e ≡ value_error
IsUsable (ok event) = RefFits event.trigger_type event.requested_ref_type event.requested_ref_name

read_ref_name-fits : (name : Option String) → FitsOrFails (read_ref_name name)
unfolding read_ref_name
read_ref_name-fits none = tt
read_ref_name-fits (some name) = elim (Bool-cases (ltb max_gitlab_ref_name_chars (len name))) [
  | inl long ↦ rw long refl
  | inr short ↦ rw short (ground arith)
]

nonempty-ref : (r : Result (Option String)) → FitsOrFails r → RefOrFails (nonempty r)
nonempty-ref (err e) h = h
nonempty-ref (ok none) h = refl
nonempty-ref (ok (some name)) h = elim (Bool-cases (name == "")) [
  | inl empty ↦ rw empty refl
  | inr full ↦ rw full (h, full)
]

read_gitlab_ref-lem : (v : Json) (prefix : String) → RefOrFails (read_gitlab_ref v prefix)
unfolding read_gitlab_ref
read_gitlab_ref-lem (text value) prefix = go (strip_prefix prefix value)
  where
    go : (rest : Option String) → RefOrFails (read_rest rest)
    go none = refl
    go (some name) = nonempty-ref (read_ref_name (some name)) (read_ref_name-fits (some name))
read_gitlab_ref-lem null prefix = refl
read_gitlab_ref-lem (boolean b) prefix = refl
read_gitlab_ref-lem (number n) prefix = refl
read_gitlab_ref-lem (array items) prefix = refl
read_gitlab_ref-lem (object _) prefix = refl

if-IsUsable :
    (b : Bool) (x y : Result ParsedProviderEvent)
    → IsUsable x
    → IsUsable y
    → IsUsable (if b then x else y)
if-IsUsable true x y h k = h
if-IsUsable false x y h k = k

module _ (show_container : Json → String) (payload : Members) (at : Instant) where
  on_push-IsUsable :
      (ref_type : RefType) (r : Result String)
      → RefOrFails r
      → IsUsable (on_push show_container payload at ref_type r)
  on_push-IsUsable ref_type (err e) h = h
  on_push-IsUsable ref_type (ok name) h = h

  on_merge_request-IsUsable :
      (attributes : Members) (r : Result (Option String))
      → FitsOrFails r
      → IsUsable (on_merge_request show_container payload at attributes r)
  on_merge_request-IsUsable attributes (err e) h = h
  on_merge_request-IsUsable attributes (ok name) h = (refl, h)

  -- The GitLab parser either raises a ValueError, or gives an event without a trigger, which has no
  -- ref, or one of a push, which has a ref with a name that is not empty and has at most 255
  -- characters, or one of a merge request, which has a branch whose name, where there is one, has at
  -- most 255 characters.
  pub parse-IsUsable :
      (event_name : String)
      → IsUsable (parse_gitlab_event_payload show_container event_name payload at)
  unfolding parse_gitlab_event_payload
  parse-IsUsable event_name =
      let kind = read_nullable_string show_container (get_key payload "object_kind") in
      let attributes = members_or_empty (get_key payload "object_attributes") in
      let ref = get_key payload "ref" in
      let source = read_nullable_string show_container (get_key attributes "source_branch") in
      if-IsUsable (kind_mismatch event_name kind) _ _ refl (
        if-IsUsable (event_name == push_hook || kind == some "push") _ _
          (on_push-IsUsable RefType.branch _ (read_gitlab_ref-lem ref "refs/heads/"))
          (if-IsUsable (event_name == tag_push_hook || kind == some "tag_push") _ _
            (on_push-IsUsable RefType.tag _ (read_gitlab_ref-lem ref "refs/tags/"))
            (if-IsUsable (event_name == merge_request_hook || kind == some "merge_request") _ _
              (on_merge_request-IsUsable attributes _ (read_ref_name-fits source)) (refl, refl))))
