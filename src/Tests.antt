-- ===== src/Tests.antt =====
-- Sample data, runs on it, and the theorems applied to it.
mod Samples
mod Ledgers
mod OrderLedgers
mod Capacities
mod Recoveries
mod Budgets
mod Services
mod Envelopes
