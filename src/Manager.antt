-- ===== src/Manager.antt =====
-- internal/manager: reference counts of rules across sessions, and their reconciliation with VPP.
pub mod State
pub mod Refcount
pub mod Backend
pub mod Handlers
pub mod Invariant
