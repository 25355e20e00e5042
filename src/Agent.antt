-- ===== src/Agent.antt =====
-- certman/api/routes/node_agent.py and certman/security/signing.py: the signed endpoints of the agents.
pub mod Platform
pub mod State
pub mod Auth
pub mod Replay
pub mod Token
pub mod Assign
pub mod Report
pub mod Bundle
pub mod Events
mod Tests
