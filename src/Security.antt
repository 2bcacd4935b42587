-- ===== src/Security.antt =====
-- The security checks: kernel/security/sandbox.c and kernel/security/policy_enforce.c.
pub mod Sandbox
pub mod Calls
pub mod Pointers
pub mod Policy
pub mod Sha256
pub mod Padding
pub mod Digest
pub mod Userdb
pub mod Login
pub mod Records
mod Vectors
mod Tests
