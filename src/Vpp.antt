-- ===== src/Vpp.antt =====
-- internal/vpp: the data types and the operations of the VPP backend.
pub mod Types
pub mod Acl
pub mod Attach
