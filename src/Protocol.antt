-- ===== src/Protocol.antt =====
-- packages/sip-protocol: signed documents, and the artifacts and manifests built on them.
pub mod Signing
pub mod Documents
pub mod Artifacts
pub mod Manifests
pub mod ProviderManifest
