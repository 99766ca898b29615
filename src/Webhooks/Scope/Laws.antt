-- ===== src/Webhooks/Scope/Laws.antt =====
-- What the scope filter keeps.
use tci.Prelude.{
  ◌≡◌, ◌≤◌, refl, ◌⊎◌, inl, inr, true, false, List, [], ◌∷◌, String, length, All, arith, Bool-cases,
}
use tci.Webhooks.Scope.{
  SnapshotArchiveEntryDraft, ScopeFilterRuleSet, PathRules, is_empty, is_binary_content,
  is_hard_excluded_path, matches_any_path, matches_file_type, is_skipped, filter_snapshot_entries,
}

no_types :
    (r : PathRules) (path : String) (types : List String)
    → is_empty types ≡ true
    → matches_file_type r path types ≡ false
no_types r path [] h = refl
no_types r path (t ∷ ts) h = cc

module _ (r : PathRules) {Rest : Type 0} (rules : ScopeFilterRuleSet) where
  -- What every rule asks of an entry.
  abbrev pub IsAdmissible : SnapshotArchiveEntryDraft Rest → Type 0
  IsAdmissible e =
      (is_hard_excluded_path r e.path ≡ false)
      × ((is_empty rules.include_paths ≡ true)
          ⊎ (matches_any_path r e.path rules.include_paths ≡ true))
      × (matches_any_path r e.path rules.exclude_paths ≡ false)
      × (matches_file_type r e.path rules.blocked_file_types ≡ false)
      × ((is_empty rules.allowed_file_types ≡ true)
          ⊎ (matches_file_type r e.path rules.allowed_file_types ≡ true))
      × ((rules.exclude_binary ≡ false) ⊎ (is_binary_content e.content ≡ false))
      × (length e.content ≤ rules.max_file_size_bytes)

  kept-IsAdmissible :
      (e : SnapshotArchiveEntryDraft Rest) → is_skipped r rules e ≡ false → IsAdmissible e
  kept-IsAdmissible e h = (
    ground arith,
    ground arith,
    ground arith,
    ground (arith, no_types r e.path rules.blocked_file_types),
    ground arith,
    ground arith,
    ground arith,
  )

  -- Every entry that the filter keeps meets all rules.
  pub filter-IsAdmissible :
      (entries : List (SnapshotArchiveEntryDraft Rest))
      → All IsAdmissible (filter_snapshot_entries r rules entries)
  unfolding filter_snapshot_entries
  filter-IsAdmissible [] = tt
  filter-IsAdmissible (e ∷ entries) = elim (Bool-cases (is_skipped r rules e)) [
    | inl skipped ↦ rw skipped (filter-IsAdmissible entries)
    | inr kept ↦ rw kept (kept-IsAdmissible e kept, filter-IsAdmissible entries)
  ]
