-- ===== src/Queue.antt =====
-- infrastructure/queue/repository_ingestion_tasks.py: what the worker does around a snapshot.
pub mod RestoreCursor
pub mod Dispatch
pub mod DispatchFailure
pub mod WebhookSync
pub mod Safety
pub mod SnapshotTask
pub mod ManualSync
use tci.Prelude.{Option, ◌+◌, ℕ, ltb, Bool}
use tci.Models.Rows.{Uuid, Instant}

-- WEBHOOK_SYNC_PENDING_DISPATCH_STALE_AFTER and WEBHOOK_SYNC_RUNNING_REPLAY_STALE_AFTER, in
-- microseconds.
abbrev pub stale_after : ℕ
stale_after = 900000000

-- The name of a task with its keyword arguments.
pub data TaskCall : Type 0 where
  run_manual_snapshot_sync : Uuid → Uuid → Uuid → TaskCall
  run_webhook_sync : Uuid → Uuid → Option Uuid → TaskCall

-- The readings of the clock, in the order of the code.
pub record Clock : Type 0 where
  pub stale_check : Instant
  pub released_at : Instant
  pub enqueued_at : Instant
  pub claim_check : Instant
  pub failed_at : Instant

-- `_pending_dispatch_is_stale`
abbrev pub dispatch_is_stale : Instant → Instant → Bool
dispatch_is_stale now enqueued_at = ltb (enqueued_at + stale_after) now
