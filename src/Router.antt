-- ===== src/Router.antt =====
-- packages/router/src/sip_router: the client that pays providers and fails over between them.
pub mod Client
pub mod Chat
pub mod Registry
pub mod Scoring
pub mod Resolver
