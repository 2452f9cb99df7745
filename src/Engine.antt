-- ===== src/Engine.antt =====
-- engine/: the process that owns the database, the wire format of its socket, and its clients.
pub mod Protocol
pub mod Stats
pub mod Server
pub mod Client
pub mod Connection
