-- ===== src/Inventory.antt =====
-- certman/services/certificate_inventory_service.py: the certificate table follows the disk.
pub mod Service
pub mod Laws
mod Tests
