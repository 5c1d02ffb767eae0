-- ===== src/Tests.antt =====
-- Concrete inputs for the theorems, and the theorems at them.
pub mod Data
mod Worlds
mod Runs
mod Signed
mod Core
mod Reports
mod Servers
mod Signing
mod Zones
