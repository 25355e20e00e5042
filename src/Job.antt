-- ===== src/Job.antt =====
-- certman/services/job_service.py over the table of certman/db/models.py.
pub mod Table
pub mod Service
pub mod Unique
pub mod Queue
pub mod Rival
pub mod Claim
pub mod Update
pub mod Enqueue
pub mod History
pub mod Once
pub mod Attempts
pub mod Listing
mod Tests
