-- ===== src/Gateway.antt =====
-- packages/provider-gateway/src/sip_gateway/app.py: the provider gateway.
pub mod RateLimiter
pub mod Text
pub mod Pricing
pub mod Requests
pub mod Quote
pub mod Manifest
pub mod Chat
