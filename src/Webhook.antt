-- ===== src/Webhook.antt =====
-- certman/services/webhook_service.py: subscriptions and deliveries.
pub mod Table
pub mod Service
pub mod Publish
pub mod Subscribe
pub mod Store
pub mod Refinement
mod Tests
