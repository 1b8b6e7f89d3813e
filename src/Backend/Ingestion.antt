-- ===== src/Backend/Ingestion.antt =====
-- The ingestion of a webhook delivery, from the opened unit of work on:
-- backend/src/sre_agent/application/alerts/ingest_grafana_alerts.py over the repositories of
-- backend/src/sre_agent/persistence/repositories, one transaction at a time.
pub mod Rows
pub mod Fingerprint
pub mod Alerts
pub mod Incidents
pub mod Jobs
pub mod Execute
