-- ===== src/Cert.antt =====
-- certman/services/cert_service.py and certman/providers.py: the certificates of entries, and issuing and renewing them.
pub mod Lineage
pub mod Providers
pub mod Service
pub mod Strict
mod Tests
