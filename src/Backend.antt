-- ===== src/Backend.antt =====
-- backend/src/sre_agent: the webhook and operator API.
pub mod Alerts
pub mod Ingestion
pub mod Waterfall
pub mod Outbox
pub mod Settlement
pub mod Recovery
