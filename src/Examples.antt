-- ===== src/Examples.antt =====
-- Small runs of the definitions, and the theorems applied at concrete inputs.
mod World
mod Polling
mod Alerting
mod Codecs
mod Serving
mod Watching
mod Querying
mod Migrating
mod Publishing
mod Recording
mod Supervising
mod Loading
