-- ===== src/Webhooks.antt =====
-- infrastructure/webhooks, and the pure rules of domain/services that decide what a delivery does.
pub mod Decision
pub mod TokenVerifier
pub mod GithubSignature
pub mod Json
pub mod GitlabEvents
pub mod GithubEvents
pub mod GithubDecision
pub mod Scope
