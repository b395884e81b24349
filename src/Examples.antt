-- ===== src/Examples.antt =====
-- Concrete reservations, and what the theorems say of them.
pub mod Data
pub mod Vlans
pub mod Requests
pub mod Runs
pub mod Holds
pub mod Versions
pub mod Recovery
pub mod Topologies
pub mod Answers
pub mod Queries
pub mod Switch
pub mod Workflows
pub mod Circuits
