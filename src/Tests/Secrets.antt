-- ===== src/Tests/Secrets.antt =====
-- Tokens against the stored secrets, and entries against the scope rules.
use tci.Prelude.{
  ◌≡◌, refl, true, false, ◌&&◌, some, List, [], ◌∷◌, String, any, All, ◌==◌, string_eq, eq_iff, ℕ,
}
use tci.Models.Enums.Types.{SignatureStatus, WebhookSecretRevisionStatus, SnapshotInclusionReason}
use tci.Session.{ok}
use tci.Persistence.Secrets.{is_candidate}
use tci.Webhooks.TokenVerifier.{GitLabTokenVerificationOutcome}
use tci.Webhooks.Scope.{
  PathRules, ScopeFilterRuleSet, SnapshotArchiveEntryDraft, filter_snapshot_entries,
}
use tci.Webhooks.Scope.Laws.{IsAdmissible, filter-IsAdmissible}
use tci.Services.GitlabEvent.Rejection.{verify_token}
use tci.Services.Accepted.{accepts, verified_by_live_secret}
use tci.Tests.{platform, with_runs}

abbrev accepted : GitLabTokenVerificationOutcome
accepted = record {
  signature_status = SignatureStatus.verified;
  verified_secret_revision_id = some 3;
  verified_secret_revision_status = some WebhookSecretRevisionStatus.active;
}

token_is_accepted : (verify_token platform 100 1 (some "s3cret") (with_runs [])).0 ≡ ok accepted
unfolding verify_token
token_is_accepted = refl

equal_texts : (a b : String) → platform.compare_digest a b ≡ ok true → a ≡ b
equal_texts a b h = let same : (a == b) ≡ true = cc in (eq_iff a b).0 same

verified_by_live_secret_example :
    any (λ r. is_candidate 1 100 r && accepts platform "s3cret" (some 3) r) (with_runs []).secrets
    ≡ true
verified_by_live_secret_example =
    verified_by_live_secret platform equal_texts 100 1 "s3cret" (with_runs []) accepted
      token_is_accepted refl

abbrev paths : PathRules
paths = record {
  fnmatchcase = λ path pattern. path == pattern;
  parts = λ path. path ∷ [];
  lower = λ s. s;
  starts_with_dot = λ s. false;
  ends_with = λ s t. s == t;
  ends_with_dotted = λ s t. s == t;
}

abbrev rules : ScopeFilterRuleSet
rules = record {
  include_paths = "main.py" ∷ "dist" ∷ [];
  exclude_paths = [];
  allowed_file_types = [];
  blocked_file_types = [];
  max_file_size_bytes = 2;
  exclude_binary = true;
}

abbrev entry : String → List ℕ → SnapshotArchiveEntryDraft Unit
entry path content = record {
  path = path;
  content = content;
  included_by = SnapshotInclusionReason.default_policy;
  rest = tt;
}

abbrev entries : List (SnapshotArchiveEntryDraft Unit)
entries = entry "main.py" (65 ∷ []) ∷ entry "dist" (65 ∷ []) ∷ entry "main.py" (0 ∷ []) ∷ []

filter-IsAdmissible_example :
    All (IsAdmissible paths rules) (filter_snapshot_entries paths rules entries)
filter-IsAdmissible_example = filter-IsAdmissible paths rules entries
