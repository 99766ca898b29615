-- ===== src/Webhooks/TokenVerifier/Laws.antt =====
-- What a verified token says, and what a comparison that raises does to a delivery.
use tci.Prelude.{
  ◌≡◌, refl, Bool, true, false, Option, none, some, List, [], ◌∷◌, String, arith, ◌==◌, string_eq,
  find?, if◌then◌else◌, any, Bool-cases, inl, inr,
}
use tci.Models.Enums.Types.{SignatureStatus}
use tci.Session.{Result, ok}
use tci.Webhooks.TokenVerifier.{
  GitLabTokenCandidate, GitLabTokenVerificationInput, GitLabTokenVerificationOutcome,
  evaluate_candidates, unverified, verification_candidates, first_match,
  evaluate_gitlab_token_verification,
}

-- The outcome that the first candidate with the header's secret gives.
abbrev pub outcome_of : Option GitLabTokenCandidate → GitLabTokenVerificationOutcome
outcome_of none = unverified SignatureStatus.secret_mismatch
outcome_of (some c) = record {
  signature_status = SignatureStatus.verified;
  verified_secret_revision_id = some c.revision_id;
  verified_secret_revision_status = some c.status;
}

-- The same decision with the plain equality of texts.
abbrev pub reference : List GitLabTokenCandidate → Option String → GitLabTokenVerificationOutcome
reference [] header = unverified SignatureStatus.secret_missing
reference (c ∷ cs) none = unverified SignatureStatus.secret_mismatch
reference (c ∷ cs) (some header) = outcome_of (find? (λ a. a.secret == header) (c ∷ cs))

module _ (compare_digest : String → String → Result Bool) (is_ascii : String → Bool)
    (compares : (a b : String)
      → is_ascii a ≡ true
      → is_ascii b ≡ true
      → compare_digest a b ≡ ok (a == b)) where
  first_match_lem :
      (header : String) (cs : List GitLabTokenCandidate)
      → is_ascii header ≡ true
      → any (λ c. if is_ascii c.secret then false else true) cs ≡ false
      → first_match compare_digest header cs ≡ ok (outcome_of (find? (λ a. a.secret == header) cs))
  unfolding first_match
  first_match_lem header [] plain all = refl
  first_match_lem header (c ∷ cs) plain all = elim (Bool-cases (c.secret == header)) [
    | inl same ↦ rw (compares c.secret header (ground arith) plain, same) refl
    | inr other ↦
        rw (compares c.secret header (ground arith) plain, other)
          (first_match_lem header cs plain (ground arith))
  ]

  -- Where every text is ASCII, the verifier never raises and decides as the plain equality of
  -- texts does: no candidate means `secret_missing`, no header or no equal secret means
  -- `secret_mismatch`, and otherwise the first candidate with the header's secret is the verified one.
  pub evaluate-reference :
      (i : GitLabTokenVerificationInput)
      → any (λ c. if is_ascii c.secret then false else true) (verification_candidates i) ≡ false
      → ((header : String) → i.token_header ≡ some header → is_ascii header ≡ true)
      → evaluate_gitlab_token_verification compare_digest i
        ≡ ok (reference (verification_candidates i) i.token_header)
  unfolding evaluate_gitlab_token_verification
  evaluate-reference i all plain = go (verification_candidates i) i.token_header all plain
    where
      go :
          (cs : List GitLabTokenCandidate) (h : Option String)
          → any (λ c. if is_ascii c.secret then false else true) cs ≡ false
          → ((header : String) → h ≡ some header → is_ascii header ≡ true)
          → evaluate_candidates compare_digest cs h ≡ ok (reference cs h)
      go [] h all plain = refl
      go (c ∷ cs) none all plain = refl
      go (c ∷ cs) (some header) all plain = first_match_lem header (c ∷ cs) (plain header refl) all
