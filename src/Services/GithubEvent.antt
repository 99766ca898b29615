-- ===== src/Services/GithubEvent.antt =====
-- domain/services/process_github_event.py: a delivery of GitHub, from the signature to the sync run.
-- The helpers that the file shares with process_gitlab_event.py by text are those of
-- Services.Delivery and Services.GitlabEvent.
pub mod Verification
pub mod Rejection
pub mod Recording
pub mod Signed
pub mod Process
pub mod EnqueueFailure
use tci.Prelude.{Bool, Option, String}
use tci.Models.Rows.{Uuid}
use tci.Webhooks.Json.{Members}
use tci.Services.Platform.{Platform}

pub record ProcessGitHubEventCommand : Type 0 where
  pub connection_id : Uuid
  pub provider_delivery_id : String
  pub provider_event_name : String
  pub signature_header : Option String
  pub raw_body : String
  pub payload : Members

pub record ProcessGitHubEventResult : Type 0 where
  pub event_id : Uuid
  pub provider_delivery_id : String
  pub sync_run_id : Option Uuid
  pub should_enqueue_sync : Bool
  pub dispatch_event_id : Option Uuid

-- The platform, with `hmac.new(secret, body, sha256).hexdigest()` and `hmac.compare_digest` on
-- digests, where it raises nothing.
pub record GitHubPlatform : Type 0 where
  pub platform : Platform
  pub hmac_hexdigest : String → String → String
  pub equal_digests : String → String → Bool
