-- ===== src/Examples.antt =====
-- Tests of the models on concrete inputs, and the theorems applied to them.
pub mod Rules
pub mod Sessions
pub mod Acls
pub mod Leases
pub mod Datagrams
pub mod Flows
pub mod Routes
pub mod Rings
