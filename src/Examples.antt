-- ===== src/Examples.antt =====
-- Runs of the modelled code, and the theorems at concrete inputs.
mod Alerts
mod Lifecycle
mod Outbox
mod Waterfall
mod Analysis
mod Processor
mod Rules
