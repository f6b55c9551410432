-- ===== src/Workspaces.antt =====
-- src/workspace: the workspaces of a tenant and the tasks on their boards.
pub mod Model
pub mod Repository
pub mod Service
pub mod Tasks
pub mod Update
pub mod Listing
pub mod Attachments
pub mod Tests
pub mod Step
