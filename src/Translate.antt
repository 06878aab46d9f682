-- ===== src/Translate.antt =====
-- internal/translate: the pure core that maps a FlowSpec rule to a VPP ACL rule.
pub mod Unsupported
pub mod Interval
pub mod Range
pub mod Exact
pub mod TcpFlags
pub mod Rule
