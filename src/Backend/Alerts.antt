-- ===== src/Backend/Alerts.antt =====
-- backend/src/sre_agent/domain: alerts, their normalization and the states of incidents and runs.
pub mod Json
pub mod Labels
pub mod Identity
pub mod Rules
