-- ===== src/Tests.antt =====
-- Examples: the theorems at concrete keys, vouchers, payments, schedules and requests.
pub mod Sample
pub mod Signing
pub mod Payment
pub mod Race
pub mod Gateway
pub mod Wallet
pub mod Router
pub mod Discovery
pub mod Relay
pub mod Resolver
pub mod Proxy
pub mod Blind
pub mod Reputation
pub mod Node
