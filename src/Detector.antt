-- ===== src/Detector.antt =====
-- internal/detector: attack detection over sampled packets.
pub mod Sample
pub mod Ring
pub mod Pool
