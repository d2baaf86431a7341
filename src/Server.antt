-- ===== src/Server.antt =====
-- internal/ssh/server and internal/server: the keys and the connections of a server.
pub mod AuthKeyStore
pub mod Stats
pub mod User
