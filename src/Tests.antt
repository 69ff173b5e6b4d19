-- ===== src/Tests.antt =====
-- The development at concrete inputs: a database with events on two days, a Redis that holds a
-- function, requests and headers.
pub mod Databases
pub mod Stores
pub mod Services
mod Runs
mod Migrations
mod Handlers
mod Requests
pub mod Snapshots
mod Reports
pub mod Process
pub mod Auditing
mod Threads
mod Versions
mod Seeds
