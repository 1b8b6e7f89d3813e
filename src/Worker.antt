-- ===== src/Worker.antt =====
-- rca-worker/src/sre_rca_worker: the Pub/Sub consumer that runs root cause analyses.
pub mod Rows
pub mod Lifecycle
pub mod Waterfall
pub mod Evidence
pub mod Analysis
pub mod Discovery
