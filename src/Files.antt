-- ===== src/Files.antt =====
-- src/file: temporary uploads to Cloudinary and their finalization for a task.
pub mod Cloud
pub mod Model
pub mod Repository
pub mod Names
pub mod Cleanup
pub mod Upload
pub mod Finalize
pub mod Sample
pub mod Tests
