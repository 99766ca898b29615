-- ===== src/Services.antt =====
-- domain/services: webhook deliveries, the rotation of secrets, snapshots and default refs.
pub mod Platform
pub mod Delivery
pub mod GitlabEvent
pub mod Safety
pub mod Once
pub mod GithubEvent
pub mod RotateSecret
pub mod Accepted
pub mod Snapshot
pub mod Credential
pub mod UpdateDefaultRef
