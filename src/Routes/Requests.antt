-- ===== src/Routes/Requests.antt =====
-- The guards of api/routes/gitlab_webhooks.py in front of the rate limiter and of the payload: whose
-- request it is, the delivery id of the headers, and the size of the body. `strip` is str.strip; a
-- body is a list of bytes.
pub mod Laws
use tci.Prelude.{
  map, ℕ, suc, ◌+◌, Bool, true, false, not, ◌&&◌, Option, none, some, List, [], ◌∷◌, ◌++◌, String,
  any, filter, length, ltb, if◌then◌else◌, ◌==◌, string_eq,
}
use tci.Prelude.Lists.{reverse}
use tci.Prelude.Text.{split_on}
use tci.Models.Enums.Types.{ProviderEventIdempotencySource}

-- What the guards read of a request. `client_host` is `request.client.host`, where there is a client.
pub record WebhookRequest : Type 0 where
  pub client_host : Option String
  pub forwarded_for : Option String

abbrev pub is_text : String → Bool
is_text s = not (s == "")

-- `set(trusted_proxy_hosts)`
abbrev pub is_trusted : List String → String → Bool
is_trusted hosts hop = any (λ h. h == hop) hosts

abbrev pub first_untrusted : List String → String → List String → String
first_untrusted hosts default [] = default
first_untrusted hosts default (hop ∷ hops) =
    let rest = first_untrusted hosts default hops in if is_trusted hosts hop then rest else hop

abbrev pub from_hops : List String → List String → String
from_hops hosts [] = "unknown"
from_hops hosts (hop ∷ hops) = first_untrusted hosts hop (reverse (hop ∷ hops))

module _ (strip : String → String) where
  -- `[hop.strip() for hop in forwarded_for.split(",") if hop.strip()]`
  abbrev pub hops_of : String → List String
  hops_of forwarded_for = filter is_text (map strip (split_on 44 forwarded_for))

  -- `_source_from_forwarded_for`
  unfoldable pub source_from_forwarded_for : List String → String → String
  unfolding reverse split_on
  source_from_forwarded_for hosts forwarded_for = from_hops hosts (hops_of forwarded_for)

  -- `_direct_host`
  abbrev pub direct_host : Option String → String
  direct_host none = "unknown"
  direct_host (some host) = host

  abbrev with_forwarded : List String → String → Option String → String
  with_forwarded hosts direct none = direct
  with_forwarded hosts direct (some forwarded_for) =
      if is_text forwarded_for && is_trusted hosts direct
      then source_from_forwarded_for hosts forwarded_for
      else direct

  -- `_source_key`
  unfoldable pub source_key : List String → WebhookRequest → String
  unfolding source_from_forwarded_for
  source_key hosts request =
      with_forwarded hosts (direct_host request.client_host) request.forwarded_for

-- `_extract_header_delivery`, of the headers Idempotency-Key and X-Gitlab-Webhook-UUID.
abbrev pub text_header : Option String → Option String
text_header none = none
text_header (some s) = if s == "" then none else some s

abbrev by_uuid : Option String → Option (String × ProviderEventIdempotencySource)
by_uuid none = none
by_uuid (some s) = some (s, ProviderEventIdempotencySource.uuid_header)

abbrev by_key :
    Option String
    → Option (String × ProviderEventIdempotencySource)
    → Option (String × ProviderEventIdempotencySource)
by_key none rest = rest
by_key (some s) rest = some (s, ProviderEventIdempotencySource.delivery_header)

unfoldable pub extract_header_delivery :
    Option String → Option String → Option (String × ProviderEventIdempotencySource)
extract_header_delivery idempotency_key webhook_uuid =
    by_key (text_header idempotency_key) (by_uuid (text_header webhook_uuid))

-- MAX_GITLAB_WEBHOOK_BODY_BYTES
abbrev pub max_body_bytes : ℕ
max_body_bytes = 1048576

-- The loop of `_read_limited_body`, over the chunks of the stream.
unfoldable pub read_chunks : List ℕ → List (List ℕ) → Option (List ℕ)
read_chunks body [] = some body
read_chunks body (chunk ∷ chunks) =
    let rest = read_chunks (body ++ chunk) chunks in
    if ltb max_body_bytes (length body + length chunk) then none else rest

-- `_read_limited_body`
unfoldable pub read_limited_body : List (List ℕ) → Option (List ℕ)
unfolding read_chunks
read_limited_body chunks = read_chunks [] chunks

-- `_is_oversized_content_length`; `int` gives nothing where it raises ValueError, and a negative
-- number is not over the limit.
unfoldable pub is_oversized_content_length : (String → Option ℕ) → Option String → Bool
is_oversized_content_length int none = false
is_oversized_content_length int (some content_length) = elim (int content_length) [
  | none ↦ false
  | some n ↦ ltb max_body_bytes n
]
