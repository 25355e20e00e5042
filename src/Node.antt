-- ===== src/Node.antt =====
-- The `node` table and certman/services/node_service.py.
pub mod Table
pub mod Register
pub mod Laws
mod Tests
