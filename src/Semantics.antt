-- ===== src/Semantics.antt =====
-- What rules and ACL entries mean for a packet: the specifications that the code is held to.
pub mod Operators
pub mod Packets
pub mod Rules
pub mod Entries
