-- ===== src/Services/GithubEvent/Signed.antt =====
-- Whose secret a GitHub delivery was signed with.
use tci.Prelude.{
  ◌≡◌, refl, sym, ap, ◌∙◌, Bool, true, false, not, ◌&&◌, ◌||◌, Option, none, some, List, [], ◌∷◌,
  String, arith, any, filter, order_by, ◌==◌, nat_eq, string_eq, option_eq, is_some, Bool-cases,
  inl, inr,
}
use tci.Prelude.Lists.{any-order_by, any-filter}
use tci.Prelude.Text.{strip_prefix, len}
use tci.Prelude.Equality.{beq_refl}
use tci.Models.Rows.{Uuid, Instant, WebhookSecretRevision}
use tci.Session.{Database, Result, ok, err, pure, next_step}
use tci.Persistence.Secrets.{is_candidate, newest_secret_first, list_verification_candidates}
use tci.Webhooks.GithubSignature.{
  SecretCandidate, secret_of, first_valid, verify_found, verify_github_webhook_signature,
  is_hex_digest,
}
use tci.Webhooks.GithubSignature.Laws.{digest_of}
use tci.Services.Platform.{decrypt_secret_from_storage}
use tci.Services.GithubEvent.{GitHubPlatform, ProcessGitHubEventCommand}
use tci.Services.GithubEvent.Verification.{
  SecretVerificationOutcome, secret_is_verified, SecretVerificationInput,
  looks_like_github_signature, verification_input, verify_signature, github_candidates, outcome_of,
  add_candidate, decrypted_candidate, evaluate_github_secret_verification,
}

abbrev on_secret : (String → Bool) → Result String → Bool
on_secret test (ok secret) = test secret
on_secret test (err e) = false

-- The header carries the digest of the body under the secret.
abbrev pub is_signed_with : GitHubPlatform → ProcessGitHubEventCommand → String → Bool
is_signed_with g command secret =
    digest_of command.signature_header == some (g.hmac_hexdigest secret command.raw_body)

-- The outcome names the row, and the header carries the digest under its decrypted secret.
abbrev pub signs :
    GitHubPlatform → ProcessGitHubEventCommand → Option Uuid → WebhookSecretRevision → Bool
signs g command revision r =
    on_secret (λ secret. some r.id == revision && is_signed_with g command secret)
      (decrypt_secret_from_storage g.platform r.encrypted_secret)

abbrev is_match : GitHubPlatform → ProcessGitHubEventCommand → Option Uuid → SecretCandidate → Bool
is_match g command revision c =
    some c.revision_id == revision && is_signed_with g command (secret_of c)

or_right : {a : Bool} (b : Bool) → a ≡ true → (b || a) ≡ true
or_right true h = refl
or_right false h = h

module _ (g : GitHubPlatform) (command : ProcessGitHubEventCommand)
    (sound : (a b : String) → g.equal_digests a b ≡ true → a ≡ b) where
  first_valid-any :
      (provided : String) (cs : List SecretCandidate)
      → digest_of command.signature_header ≡ some provided
      → (first_valid g.hmac_hexdigest g.equal_digests provided command.raw_body
          cs).signature_is_valid
        ≡ true
      → any
          (is_match g command
            (first_valid g.hmac_hexdigest g.equal_digests provided command.raw_body
              cs).matched_revision_id)
          cs
        ≡ true
  unfolding first_valid
  first_valid-any provided [] e h = cc
  first_valid-any provided (c ∷ cs) e h =
      elim (Bool-cases
        (g.equal_digests (g.hmac_hexdigest (secret_of c) command.raw_body) provided)) [
          | inl same ↦
              rw
                (
                  same,
                  e,
                  sound (g.hmac_hexdigest (secret_of c) command.raw_body) provided same,
                  beq_refl c.revision_id,
                  beq_refl provided,
                )
                refl
          | inr other ↦
              let next : first_valid g.hmac_hexdigest g.equal_digests provided command.raw_body
                    (c ∷ cs)
                  ≡ first_valid g.hmac_hexdigest g.equal_digests provided command.raw_body cs =
                rw other refl in
              ap (λ r. any (is_match g command r.matched_revision_id) (c ∷ cs)) next
              ∙ or_right
                  (is_match g command
                    (first_valid g.hmac_hexdigest g.equal_digests provided command.raw_body
                      cs).matched_revision_id
                    c)
                  (first_valid-any provided cs e (rw next at h))
        ]

  add_candidate-any :
      (test : SecretCandidate → Bool) (r : WebhookSecretRevision) (x : Result String)
      (rest : Result (List SecretCandidate)) (cs : List SecretCandidate) (later : Bool)
      → ((ds : List SecretCandidate) → rest ≡ ok ds → any test ds ≡ true → later ≡ true)
      → add_candidate r x rest ≡ ok cs
      → any test cs ≡ true
      → (on_secret (λ secret. test (decrypted_candidate r secret)) x || later) ≡ true
  add_candidate-any test r (err e) rest cs later h built found = cc
  add_candidate-any test r (ok secret) (err e) cs later h built found = cc
  add_candidate-any test r (ok secret) (ok ds) cs later h built found =
      let same : cs ≡ decrypted_candidate r secret ∷ ds = cc in
      go (test (decrypted_candidate r secret)) (rw same at found)
    where
      go : (b : Bool) → (b || any test ds) ≡ true → (b || later) ≡ true
      go true k = refl
      go false k = h ds refl k

  github_candidates-any :
      (test : SecretCandidate → Bool) (rows : List WebhookSecretRevision)
      (cs : List SecretCandidate)
      → github_candidates g.platform rows ≡ ok cs
      → any test cs ≡ true
      → any
          (λ r.
            on_secret
              (λ secret. test (decrypted_candidate r secret))
              (decrypt_secret_from_storage g.platform r.encrypted_secret))
          rows
        ≡ true
  unfolding github_candidates
  github_candidates-any test [] cs built found = let same : cs ≡ [] = cc in cc (rw same at found)
  github_candidates-any test (r ∷ rows) cs built found =
      add_candidate-any test r (decrypt_secret_from_storage g.platform r.encrypted_secret)
        (github_candidates g.platform rows) cs
        (any
          (λ r.
            on_secret (λ secret. test (decrypted_candidate r secret))
              (decrypt_secret_from_storage g.platform r.encrypted_secret))
          rows)
        (github_candidates-any test rows) built found

  valid-any :
      (cs : List SecretCandidate) (header : Option String)
      → command.signature_header ≡ header
      → (verify_github_webhook_signature g.hmac_hexdigest g.equal_digests cs header
          command.raw_body).signature_is_valid
        ≡ true
      → any
          (is_match g command
            (verify_github_webhook_signature g.hmac_hexdigest g.equal_digests cs header
              command.raw_body).matched_revision_id)
          cs
        ≡ true
  unfolding verify_github_webhook_signature
  valid-any cs none e h = cc
  valid-any cs (some header) e h = go (strip_prefix "sha256=" header) (ap digest_of e) h
    where
      go :
          (found : Option String)
          → digest_of command.signature_header ≡ found
          → (verify_found g.hmac_hexdigest g.equal_digests cs command.raw_body
              found).signature_is_valid
            ≡ true
          → any
              (is_match g command
                (verify_found g.hmac_hexdigest g.equal_digests cs command.raw_body
                  found).matched_revision_id)
              cs
            ≡ true
      go none e h = cc
      go (some provided) e h =
          elim (Bool-cases (not (len provided == 64) || not (is_hex_digest provided))) [
            | inl bad ↦ cc (rw bad at h)
            | inr fine ↦ rw fine (first_valid-any provided cs e (rw fine at h))
          ]

evaluate-matched :
    (i : SecretVerificationInput)
    → secret_is_verified (evaluate_github_secret_verification i) ≡ true
    → (i.signature_is_valid ≡ true)
      × ((evaluate_github_secret_verification i).verified_secret_revision_id
          ≡ i.matched_secret_revision_id)
unfolding evaluate_github_secret_verification
evaluate-matched i h = elim (Bool-cases (not i.has_any_secret)) [
  | inl no_secret ↦ cc (rw no_secret at h)
  | inr there ↦ elim (Bool-cases (i.signature_is_valid && is_some i.matched_secret_status)) [
    | inl valid ↦ (ground (arith, valid), rw (there, valid) refl)
    | inr invalid ↦ elim (Bool-cases (not (looks_like_github_signature i.signature_header))) [
      | inl odd ↦ cc (rw (there, invalid, odd) at h)
      | inr plain ↦ cc (rw (there, invalid, plain) at h)
    ]
  ]
]

-- A delivery whose signature is accepted carries the digest of its body under the decrypted secret of
-- a revision of the connection that is active, or that is in its grace period at that time, and the
-- outcome names that revision.
pub signed_by_live_secret :
    (g : GitHubPlatform)
    → ((a b : String) → g.equal_digests a b ≡ true → a ≡ b)
    → (now : Instant) (command : ProcessGitHubEventCommand) (db : Database)
      (o : SecretVerificationOutcome)
    → (verify_signature g now command db).0 ≡ ok o
    → secret_is_verified o ≡ true
    → any
        (λ r.
          is_candidate command.connection_id now r
          && signs g command o.verified_secret_revision_id r)
        db.secrets
      ≡ true
unfolding verify_signature list_verification_candidates
signed_by_live_secret g sound now command db o h v =
    sym (any-filter test (is_candidate command.connection_id now) db.secrets)
    ∙ (sym (
          any-order_by test newest_secret_first
            (filter (is_candidate command.connection_id now) db.secrets))
        ∙ go (github_candidates g.platform rows) refl h)
  where
    test : WebhookSecretRevision → Bool
    test = signs g command o.verified_secret_revision_id

    rows : List WebhookSecretRevision
    rows = order_by newest_secret_first (filter (is_candidate command.connection_id now) db.secrets)

    matched :
        (cs : List SecretCandidate)
        → outcome_of g command cs ≡ o
        → any (is_match g command o.verified_secret_revision_id) cs ≡ true
    matched cs e =
        let input = verification_input command cs (
          verify_github_webhook_signature g.hmac_hexdigest g.equal_digests cs
            command.signature_header command.raw_body) in
        let valid = evaluate-matched input (rw e v) in
        ap (λ r. any (is_match g command r) cs)
          (ap (λ x. x.verified_secret_revision_id) (sym e) ∙ valid.1)
        ∙ valid-any g command sound cs command.signature_header refl valid.0

    go :
        (built : Result (List SecretCandidate))
        → github_candidates g.platform rows ≡ built
        → (next_step (λ cs. pure (outcome_of g command cs)) built db).0 ≡ ok o
        → any test rows ≡ true
    go (ok cs) e k =
        let same : outcome_of g command cs ≡ o = cc in
        github_candidates-any g command sound (is_match g command o.verified_secret_revision_id)
          rows cs e (matched cs same)
    go (err x) e k = cc
