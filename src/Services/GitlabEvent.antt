-- ===== src/Services/GitlabEvent.antt =====
-- domain/services/process_gitlab_event.py: a delivery, from the token to the sync run.
pub mod Rejection
pub mod Rules
pub mod Recording
pub mod Queueing
pub mod Process
use tci.Prelude.{Bool, Option, String}
use tci.Models.Enums.Types.{ProviderEventIdempotencySource}
use tci.Models.Rows.{Uuid}
use tci.Webhooks.Json.{Members}

-- `provider_event_idempotency_source` stands for the member of the enumeration.
pub record ProcessGitLabEventCommand : Type 0 where
  pub connection_id : Uuid
  pub provider_delivery_id : String
  pub provider_event_idempotency_source : ProviderEventIdempotencySource
  pub provider_event_name : String
  pub token_header : Option String
  pub raw_body : String
  pub payload : Members

pub record ProcessGitLabEventResult : Type 0 where
  pub event_id : Uuid
  pub provider_delivery_id : String
  pub sync_run_id : Option Uuid
  pub should_enqueue_sync : Bool
  pub dispatch_event_id : Option Uuid
