-- ===== src/Bgp.antt =====
-- internal/bgp: the exchange of FlowSpec routes with GoBGP.
pub mod Encode
pub mod Components
pub mod RoundTrip
