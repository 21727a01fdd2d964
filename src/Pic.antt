-- ===== src/Pic.antt =====
-- packages/pic-vouchers: Private Inference Credits.
pub mod SpentSet
pub mod X402
pub mod Payment
pub mod Wallet
pub mod Ledger
pub mod Race
pub mod Blind
pub mod Issuer
