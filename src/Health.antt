-- ===== src/Health.antt =====
-- internal/health/health.go: the probes of the backends and the states that they leave.
pub mod Monitor
pub mod Probe
pub mod Verdict
pub mod Round
