-- ===== src/Api.antt =====
-- certman/api: the bearer tokens of the routes outside the agents' ones.
pub mod Auth
mod Admission
mod Tests
