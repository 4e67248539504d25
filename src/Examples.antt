-- ===== src/Examples.antt =====
-- Concrete inputs, at which the theorems are applied.
pub mod Inputs
mod Domains
mod Scopes
mod Rounds
mod Dispatches
mod Batches
mod Lookups
mod Days
