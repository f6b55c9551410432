-- ===== src/Auth.antt =====
-- src/auth: sign-in, sessions and second factors.
pub mod Model
pub mod Config
pub mod Repositories
pub mod Challenge
pub mod Factor
pub mod Session
pub mod Login
pub mod CodeLogin
pub mod SecondFactor
pub mod Manage
pub mod Guards
pub mod Sample
pub mod Tests
pub mod AccountTests
pub mod ManagementTests
