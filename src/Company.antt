-- ===== src/Company.antt =====
-- Companies: apps/console/src-tauri/src/commands/companies.rs.
pub mod Answers
pub mod Document
pub mod Limiter
pub mod Lookup
pub mod Payload
pub mod Save
mod Tests
