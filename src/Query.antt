-- ===== src/Query.antt =====
-- query/: the operator that asks a chain's nodes, its retries, its batches and its health checks.
pub mod Retry
pub mod Range
pub mod Valset
pub mod Health
pub mod Operator
