-- ===== src/License.antt =====
-- The licensing component, apps/console/src-tauri/generic-license-tauri.
pub mod Models
pub mod Error
pub mod World
pub mod Cache
pub mod Api
pub mod Json
pub mod Normalize
pub mod Answers
pub mod Calls
pub mod Payloads
pub mod Client
pub mod Legacy
pub mod Service
pub mod Rules
pub mod Fixtures
pub mod Samples
pub mod Device
pub mod Registration
pub mod Prepare
