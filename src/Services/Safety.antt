-- ===== src/Services/Safety.antt =====
-- What the steps of a delivery do to the table of sync runs. J is a statement about that table.
pub mod Tables
pub mod Rejection
pub mod Handler
pub mod Creation
pub mod Queueing
pub mod Process
pub mod Retry
pub mod Replay
pub mod Github
pub mod Snapshot
use tci.Prelude.{List}
use tci.Models.Rows.{RepositorySyncRun}
use tci.Session.{Session}
use tci.Session.Rules.{Preserves}

abbrev pub Safe : (List RepositorySyncRun → Type 0) → {A : Type 0} → Session A → Type 0
Safe J m = Preserves (λ db. J db.sync_runs) m
