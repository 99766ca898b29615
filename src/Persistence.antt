-- ===== src/Persistence.antt =====
-- infrastructure/persistence: the repositories over the tables.
pub mod Table
pub mod SyncRuns
pub mod Events
pub mod Cursors
pub mod Connections
pub mod Secrets
pub mod Credentials
pub mod Snapshots
pub mod ScopeRules
