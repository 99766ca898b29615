-- ===== src/Services/Accepted.antt =====
-- Which secrets the token check of a delivery accepts.
use tci.Prelude.{
  ◌≡◌, refl, sym, ◌∙◌, Bool, true, false, ◌&&◌, ◌||◌, Option, none, some, List, [], ◌∷◌, String,
  any, filter, order_by, ◌==◌, nat_eq, string_eq, option_eq,
}
use tci.Prelude.Lists.{any-order_by, any-filter}
use tci.Prelude.Equality.{beq_refl}
use tci.Models.Enums.Types.{SignatureStatus}
use tci.Models.Rows.{Uuid, Instant, WebhookSecretRevision}
use tci.Session.{Session, Database, Result, ok, err, lift, next_step}
use tci.Persistence.Secrets.{is_candidate, newest_secret_first, list_verification_candidates}
use tci.Webhooks.TokenVerifier.{
  GitLabTokenCandidate, GitLabTokenVerificationOutcome, is_verified, after_compare, first_match,
  evaluate_gitlab_token_verification, evaluate_candidates, unverified,
}
use tci.Services.Platform.{Platform}
use tci.Services.GitlabEvent.Rejection.{
  build_verification_candidate, build_candidates, collect, verify_token,
}

-- The candidate is the one that the outcome names, and its secret is the header.
abbrev pub is_match : String → Option Uuid → GitLabTokenCandidate → Bool
is_match header revision c = some c.revision_id == revision && c.secret == header

abbrev pub on_candidate : (GitLabTokenCandidate → Bool) → Result GitLabTokenCandidate → Bool
on_candidate test (ok c) = test c
on_candidate test (err e) = false

-- The row gives the candidate that the outcome names, and its decrypted secret is the header.
abbrev pub accepts : Platform → String → Option Uuid → WebhookSecretRevision → Bool
accepts p header revision r =
    on_candidate (is_match header revision) (build_verification_candidate p r)

collect-any :
    (test : GitLabTokenCandidate → Bool) (x : Result GitLabTokenCandidate)
    (rest : Result (List GitLabTokenCandidate)) (cs : List GitLabTokenCandidate) (later : Bool)
    → ((ds : List GitLabTokenCandidate) → rest ≡ ok ds → any test ds ≡ true → later ≡ true)
    → collect x rest ≡ ok cs
    → any test cs ≡ true
    → (on_candidate test x || later) ≡ true
collect-any test (err e) rest cs later h built found = cc
collect-any test (ok c) (err e) cs later h built found = cc
collect-any test (ok c) (ok ds) cs later h built found =
    let same : cs ≡ c ∷ ds = cc in go (test c) (rw same at found)
  where
    go : (b : Bool) → (b || any test ds) ≡ true → (b || later) ≡ true
    go true k = refl
    go false k = h ds refl k

build_candidates-any :
    (p : Platform) (test : GitLabTokenCandidate → Bool) (rows : List WebhookSecretRevision)
    (cs : List GitLabTokenCandidate)
    → build_candidates p rows ≡ ok cs
    → any test cs ≡ true
    → any (λ r. on_candidate test (build_verification_candidate p r)) rows ≡ true
unfolding build_candidates
build_candidates-any p test [] cs built found = let same : cs ≡ [] = cc in cc (rw same at found)
build_candidates-any p test (r ∷ rows) cs built found =
    collect-any test (build_verification_candidate p r) (build_candidates p rows) cs
      (any (λ r. on_candidate test (build_verification_candidate p r)) rows)
      (build_candidates-any p test rows) built found

or_right : {a : Bool} (b : Bool) → a ≡ true → (b || a) ≡ true
or_right true h = refl
or_right false h = h

module _ (compare_digest : String → String → Result Bool)
    (sound : (a b : String) → compare_digest a b ≡ ok true → a ≡ b) where
  first_match-any :
      (header : String) (cs : List GitLabTokenCandidate) (o : GitLabTokenVerificationOutcome)
      → first_match compare_digest header cs ≡ ok o
      → is_verified o ≡ true
      → any (is_match header o.verified_secret_revision_id) cs ≡ true
  unfolding first_match
  first_match-any header [] o h v =
      let same : o ≡ unverified SignatureStatus.secret_mismatch = cc in cc (rw same at v)
  first_match-any header (c ∷ cs) o h v =
      go (compare_digest c.secret header) (λ k. first_match-any header cs o k v) refl h
    where
      go :
          (r : Result Bool)
          → (first_match compare_digest header cs ≡ ok o
              → any (is_match header o.verified_secret_revision_id) cs ≡ true)
          → compare_digest c.secret header ≡ r
          → after_compare c (first_match compare_digest header cs) r ≡ ok o
          → any (is_match header o.verified_secret_revision_id) (c ∷ cs) ≡ true
      go (ok true) later e k =
          let same : o.verified_secret_revision_id ≡ some c.revision_id = cc in
          rw (same, sound c.secret header e, beq_refl c.revision_id, beq_refl header) refl
      go (ok false) later e k = or_right (is_match header o.verified_secret_revision_id c) (later k)
      go (err x) later e k = cc

  evaluate-any :
      (header : String) (cs : List GitLabTokenCandidate) (o : GitLabTokenVerificationOutcome)
      → evaluate_candidates compare_digest cs (some header) ≡ ok o
      → is_verified o ≡ true
      → any (is_match header o.verified_secret_revision_id) cs ≡ true
  evaluate-any header [] o h v =
      let same : o ≡ unverified SignatureStatus.secret_missing = cc in cc (rw same at v)
  evaluate-any header (c ∷ cs) o h v = first_match-any header (c ∷ cs) o h v

-- A delivery whose token is accepted carries the decrypted secret of a revision of the connection
-- that is active, or that is in its grace period at that time, and the outcome names that revision.
pub verified_by_live_secret :
    (p : Platform)
    → ((a b : String) → p.compare_digest a b ≡ ok true → a ≡ b)
    → (now : Instant) (c : Uuid) (header : String) (db : Database)
      (o : GitLabTokenVerificationOutcome)
    → (verify_token p now c (some header) db).0 ≡ ok o
    → is_verified o ≡ true
    → any (λ r. is_candidate c now r && accepts p header o.verified_secret_revision_id r) db.secrets
      ≡ true
unfolding verify_token list_verification_candidates evaluate_gitlab_token_verification
verified_by_live_secret p sound now c header db o h v =
    sym (any-filter test (is_candidate c now) db.secrets)
    ∙ (sym (any-order_by test newest_secret_first (filter (is_candidate c now) db.secrets))
        ∙ go (build_candidates p rows) refl h)
  where
    test : WebhookSecretRevision → Bool
    test = accepts p header o.verified_secret_revision_id

    rows : List WebhookSecretRevision
    rows = order_by newest_secret_first (filter (is_candidate c now) db.secrets)

    check : List GitLabTokenCandidate → Session GitLabTokenVerificationOutcome
    check candidates = lift (
        evaluate_gitlab_token_verification p.compare_digest record {
          token_header = some header;
          candidates = candidates;
          active_secret = none;
          active_secret_revision_id = none;
        })

    go :
        (built : Result (List GitLabTokenCandidate))
        → build_candidates p rows ≡ built
        → (next_step check built db).0 ≡ ok o
        → any test rows ≡ true
    go (ok []) e k =
        build_candidates-any p (is_match header o.verified_secret_revision_id) rows [] e
          (evaluate-any p.compare_digest sound header [] o k v)
    go (ok (d ∷ ds)) e k =
        build_candidates-any p (is_match header o.verified_secret_revision_id) rows (d ∷ ds) e
          (evaluate-any p.compare_digest sound header (d ∷ ds) o k v)
    go (err x) e k = cc
