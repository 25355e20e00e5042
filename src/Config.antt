-- ===== src/Config.antt =====
-- certman/config.py: entries, their domains and delivery targets, and the secrets that they need.
pub mod Entry
pub mod Domains
pub mod Secrets
mod Tests
