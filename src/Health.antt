-- ===== src/Health.antt =====
-- internal/health: observations and the probe monitor.
pub mod Observation
pub mod Monitor
