-- ===== src/Auth/Repositories.antt =====
-- auth/mfa/repositories, auth/repositories, and the reads of the users and tenants that src/auth
-- makes. A repository's query is one operation of the driver.
pub mod MfaChallenges
pub mod UserMfas
pub mod RefreshTokens
pub mod Users
