-- ===== src/NodeAgent.antt =====
-- certman/node_agent: the process on a node that fetches, delivers and reports.
pub mod Executor
pub mod Stream
pub mod Poller
pub mod Cycle
mod Tests
