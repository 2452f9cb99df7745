-- ===== src/Api.antt =====
-- api/: the process that serves the stored data over HTTP and pushes changes to browsers.
pub mod Types
pub mod Watcher
pub mod Overview
