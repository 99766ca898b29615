-- ===== src/Webhooks/GitlabEvents/CommitShas.antt =====
-- The commits of a push: which ids the parser collects.
use tci.Prelude.{
  ◌≡◌, refl, Bool, true, false, not, ◌&&◌, ◌||◌, Option, none, some, List, [], ◌∷◌, ◌++◌, String,
  any, all, arith, ◌==◌, string_eq, eq_iff, Bool-cases, inl, inr,
}
use tci.Webhooks.Json.{
  Json, Items, Members, no_items, item, null, boolean, number, text, array, object, get_key,
}
use tci.Webhooks.GitlabEvents.{
  append_new, collect_shas, commit_sha_of, commit_shas_from_push, commit_shas_of, zero_sha,
  drop_zero, read_nullable_string,
}

-- No text occurs twice.
pub distinct : List String → Bool
distinct [] = true
distinct (s ∷ rest) = not (any (λ r. s == r) rest) && distinct rest

any-append : (p : String → Bool) (xs ys : List String) → any p (xs ++ ys) ≡ (any p xs || any p ys)
any-append p [] ys = refl
any-append p (x ∷ xs) ys = ground (arith, any-append p xs ys)

all-append : (p : String → Bool) (xs ys : List String) → all p (xs ++ ys) ≡ (all p xs && all p ys)
all-append p [] ys = refl
all-append p (x ∷ xs) ys = ground (arith, all-append p xs ys)

distinct-append_one :
    (xs : List String) (s : String)
    → distinct xs ≡ true
    → any (λ r. s == r) xs ≡ false
    → distinct (xs ++ (s ∷ [])) ≡ true
unfolding distinct
distinct-append_one [] s h fresh = refl
distinct-append_one (x ∷ xs) s h fresh =
    ground (
      arith,
      distinct-append_one xs s,
      any-append (λ r. x == r) xs (s ∷ []),
      eq_iff x s,
      eq_iff s x,
    )

abbrev pub IsCommitList : List String → Type 0
IsCommitList shas = (distinct shas ≡ true) × (all (λ s. not (s == zero_sha)) shas ≡ true)

drop_zero-not_zero :
    (o : Option String) (s : String) → drop_zero o ≡ some s → (s == zero_sha) ≡ false
drop_zero-not_zero none s h = cc
drop_zero-not_zero (some sha) s h = ground (arith, eq_iff sha zero_sha, eq_iff s zero_sha)

module _ (show_container : Json → String) where
  sha-not_zero :
      (v : Json) (s : String) → commit_sha_of show_container v ≡ some s → (s == zero_sha) ≡ false
  sha-not_zero (object commit) s h =
      drop_zero-not_zero (read_nullable_string show_container (get_key commit "id")) s h
  sha-not_zero null s h = cc
  sha-not_zero (boolean b) s h = cc
  sha-not_zero (number n) s h = cc
  sha-not_zero (text t) s h = cc
  sha-not_zero (array items) s h = cc

  append_new-IsCommitList :
      (shas : List String) (o : Option String)
      → ((s : String) → o ≡ some s → (s == zero_sha) ≡ false)
      → IsCommitList shas
      → IsCommitList (append_new show_container shas o)
  append_new-IsCommitList shas none real h = h
  append_new-IsCommitList shas (some s) real h = elim (Bool-cases (any (λ t. s == t) shas)) [
    | inl there ↦ rw there h
    | inr fresh ↦ rw fresh (
      distinct-append_one shas s h.0 fresh,
      rw (all-append (λ t. not (t == zero_sha)) shas (s ∷ []), h.1, real s refl) refl,
    )
  ]

  collect_shas-IsCommitList :
      (shas : List String) (commits : Items)
      → IsCommitList shas
      → IsCommitList (collect_shas show_container shas commits)
  unfolding collect_shas
  collect_shas-IsCommitList shas no_items h = h
  collect_shas-IsCommitList shas (item commit rest) h =
      collect_shas-IsCommitList
        (append_new show_container shas (commit_sha_of show_container commit)) rest
        (append_new-IsCommitList shas (commit_sha_of show_container commit) (sha-not_zero commit) h)

  -- Whatever a push payload holds, the commits read from it are distinct, and none is the zero id
  -- that marks a deleted ref.
  pub commit_shas-IsCommitList :
      (payload : Members) → IsCommitList (commit_shas_from_push show_container payload)
  unfolding distinct
  commit_shas-IsCommitList payload = go (get_key payload "commits")
    where
      go : (commits : Json) → IsCommitList (commit_shas_of show_container commits)
      go (array commits) = collect_shas-IsCommitList [] commits (refl, refl)
      go null = (refl, refl)
      go (boolean b) = (refl, refl)
      go (number n) = (refl, refl)
      go (text t) = (refl, refl)
      go (object _) = (refl, refl)
