-- ===== src/Health.antt =====
-- The health subsystem of internal/health.
pub mod Locator
pub mod Prediction
pub mod Metrics
pub mod Monitor
pub mod Regression
pub mod Predictor
pub mod Migrator
