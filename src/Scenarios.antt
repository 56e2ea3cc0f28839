-- ===== src/Scenarios.antt =====
-- The operations of the queue run on concrete inputs.
pub mod Sample
mod Runs
mod Lives
mod Histories
pub mod Pools
pub mod Progress
mod Shutdowns
mod Settings
mod Calm
mod Commands
mod Machines
mod Parts
mod Tables
