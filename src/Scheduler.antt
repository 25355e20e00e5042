-- ===== src/Scheduler.antt =====
-- certman/scheduler: the scan for due renewals, and when it runs.
pub mod Int
pub mod Cron
pub mod Loop
pub mod Renewal
mod Tests
