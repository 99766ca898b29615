-- ===== src/Routes.antt =====
-- api/routes: the guards in front of the webhook handlers, and the route of a GitLab delivery.
pub mod RateLimit
pub mod Requests
