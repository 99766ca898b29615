-- ===== src/Webhooks/GithubEvents/Laws.antt =====
-- The refs of GitHub pushes.
use Prim.Native.String.{◌++◌ as concat}
use tci.Prelude.{◌≡◌, ◌≤◌, refl, false, some, String, arith, ltb, ◌==◌, string_eq}
use tci.Prelude.Text.{len}
use tci.Prelude.Text.Laws.{strip_prefix-append, strip_prefix-apart, texts_part}
use tci.Models.Enums.Types.{RefType}
use tci.Session.{ok}
use tci.Webhooks.Json.{text}
use tci.Webhooks.GitlabEvents.{read_ref_name, max_gitlab_ref_name_chars}
use tci.Webhooks.GithubEvents.{read_github_push_ref, named_ref}

named :
    (ref_type : RefType) (name : String)
    → (name == "") ≡ false
    → len name ≤ max_gitlab_ref_name_chars
    → named_ref ref_type (read_ref_name (some name)) ≡ ok (ref_type, name)
unfolding read_ref_name
named ref_type name full short =
    let fits : ltb max_gitlab_ref_name_chars (len name) ≡ false = ground (arith, short) in
    rw (fits, full) refl

-- A branch or a tag whose name is not empty and has at most 255 characters is read back from the ref
-- that git gives to it.
pub read_github_push_ref-roundtrip :
    (name : String)
    → (name == "") ≡ false
    → len name ≤ max_gitlab_ref_name_chars
    → (read_github_push_ref (text (concat "refs/heads/" name)) ≡ ok (RefType.branch, name))
      × (read_github_push_ref (text (concat "refs/tags/" name)) ≡ ok (RefType.tag, name))
unfolding read_github_push_ref texts_part
read_github_push_ref-roundtrip name full short = (
  rw (strip_prefix-append "refs/heads/" name) (named RefType.branch name full short),
  rw
      (
        strip_prefix-apart "refs/heads/" "refs/tags/" name refl,
        strip_prefix-append "refs/tags/" name,
      )
      (named RefType.tag name full short),
)
