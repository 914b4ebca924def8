-- ===== src/Access.antt =====
-- Access control: apps/console/src-tauri/src/commands/auth.rs and access.rs.
pub mod Rows
pub mod Payload
pub mod Sessions
pub mod Login
pub mod Statements
pub mod Policy
pub mod Profiles
pub mod Users
pub mod Save
pub mod Guard
pub mod Samples
pub mod Tests
