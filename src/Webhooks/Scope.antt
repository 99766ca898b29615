-- ===== src/Webhooks/Scope.antt =====
-- domain/services/scope_filter_engine.py and default_scope_policy.py. `fnmatchcase`, `str.lower`,
-- `str.endswith` and the parts of a PurePosixPath are parameters; the content of an entry is its bytes,
-- as numbers. The fields of an entry that the filter only copies are one value of a type of their own.
pub mod Laws
use tci.Prelude.{
  ℕ, Bool, true, false, not, ◌&&◌, ◌||◌, List, [], ◌∷◌, String, any, length, ltb, if◌then◌else◌,
  ◌==◌, nat_eq, string_eq, Option, none, some,
}
use tci.Models.Enums.Types.{SnapshotInclusionReason}

pub record SnapshotArchiveEntryDraft (Rest : Type 0) : Type 0 where
  pub path : String
  pub content : List ℕ
  pub included_by : SnapshotInclusionReason
  pub rest : Rest

pub record ScopeFilterRuleSet : Type 0 where
  pub include_paths : List String
  pub exclude_paths : List String
  pub allowed_file_types : List String
  pub blocked_file_types : List String
  pub max_file_size_bytes : ℕ
  pub exclude_binary : Bool

-- HARD_EXCLUDED_DIRECTORY_NAMES
abbrev pub hard_excluded_directory_names : List String
hard_excluded_directory_names =
    ".git" ∷ "node_modules" ∷ "dist" ∷ "build" ∷ ".next" ∷ "coverage" ∷ "target" ∷ "vendor" ∷ []

abbrev pub is_empty : {A : Type 0} → List A → Bool
is_empty [] = true
is_empty (x ∷ xs) = false

-- `is_binary_content`
abbrev pub is_binary_content : List ℕ → Bool
is_binary_content content = any (λ byte. byte == 0) content

-- `exceeds_v1_size_limit`
abbrev pub exceeds_v1_size_limit : ℕ → ℕ → Bool
exceeds_v1_size_limit size_bytes max_file_size_bytes = ltb max_file_size_bytes size_bytes

-- The methods of Python's texts and paths.
pub record PathRules : Type 0 where
  pub fnmatchcase : String → String → Bool
  pub parts : String → List String
  pub lower : String → String
  pub starts_with_dot : String → Bool
  -- `path.endswith(suffix)`, and `path.endswith("." + suffix)`
  pub ends_with : String → String → Bool
  pub ends_with_dotted : String → String → Bool

abbrev pub reason : Bool → SnapshotInclusionReason → SnapshotInclusionReason
reason true SnapshotInclusionReason.default_policy = SnapshotInclusionReason.user_include
reason included old = old

module _ (r : PathRules) where
  -- `is_hard_excluded_path`
  abbrev pub is_hard_excluded_path : String → Bool
  is_hard_excluded_path path =
      any (λ part. any (λ name. part == name) hard_excluded_directory_names) (r.parts path)

  -- `_matches_any_path`
  abbrev pub matches_any_path : String → List String → Bool
  matches_any_path path patterns = any (r.fnmatchcase path) patterns

  abbrev has_type : String → String → Bool
  has_type lowered_path normalized =
      if r.starts_with_dot normalized
      then r.ends_with lowered_path normalized
      else r.ends_with_dotted lowered_path normalized

  -- `_matches_file_type`
  abbrev pub matches_file_type : String → List String → Bool
  matches_file_type path file_types =
      any (λ file_type. has_type (r.lower path) (r.lower file_type)) file_types

  module _ {Rest : Type 0} (rules : ScopeFilterRuleSet) where
    abbrev pub included_by_user_rule : SnapshotArchiveEntryDraft Rest → Bool
    included_by_user_rule entry = matches_any_path entry.path rules.include_paths

    -- The entry that is appended, with the reason that a user's rule gives.
    abbrev pub relabel : SnapshotArchiveEntryDraft Rest → SnapshotArchiveEntryDraft Rest
    relabel entry = record entry {
      included_by = reason (included_by_user_rule entry) entry.included_by;
    }

    -- `continue`, as in the body of the loop: whether the entry is skipped.
    abbrev pub is_skipped : SnapshotArchiveEntryDraft Rest → Bool
    is_skipped entry =
        if is_hard_excluded_path entry.path
        then true
        else if not (is_empty rules.include_paths) && not (included_by_user_rule entry)
        then true
        else if matches_any_path entry.path rules.exclude_paths
        then true
        else if not (is_empty rules.blocked_file_types)
            && matches_file_type entry.path rules.blocked_file_types
        then true
        else if not (is_empty rules.allowed_file_types)
            && not (matches_file_type entry.path rules.allowed_file_types)
        then true
        else if rules.exclude_binary && is_binary_content entry.content
        then true
        else exceeds_v1_size_limit (length entry.content) rules.max_file_size_bytes

    unfoldable pub filter_snapshot_entries :
        List (SnapshotArchiveEntryDraft Rest) → List (SnapshotArchiveEntryDraft Rest)
    filter_snapshot_entries [] = []
    filter_snapshot_entries (entry ∷ entries) =
        let rest = filter_snapshot_entries entries in
        if is_skipped entry then rest else relabel entry ∷ rest
