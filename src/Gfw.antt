-- ===== src/Gfw.antt =====
-- internal/gfw: what the platform concludes from its blocking measurements.
pub mod Measurements
pub mod Confidence
pub mod Analyzer
pub mod Tables
pub mod Blocking
pub mod Verdicts
