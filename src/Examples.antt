-- ===== src/Examples.antt =====
-- A small database, and the theorems at it.
pub mod Sample
mod Queue
mod Addresses
mod Registry
pub mod Outside
mod Machine
mod Endings
mod Replay
mod Driven
mod Requests
mod Watch
mod Listing
mod Identity
mod Cluster
mod Configured
