-- ===== src/Worker.antt =====
-- dp/chain_worker.ts
pub mod Types
pub mod Commit
pub mod Collect
pub mod Inactivity
pub mod Poll
pub mod Cycle
pub mod Start
