-- ===== src/Tests.antt =====
-- Concrete inputs: the theorems at the small world of Tests.Data.
pub mod Data
mod Wire
mod Sessions
mod Groups
mod Passwords
mod Tables
mod Storage
mod Client
mod Network
