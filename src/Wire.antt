-- ===== src/Wire.antt =====
-- internal/server/handlers and internal/clients/handlers: the messages between server and client.
pub mod Codec
pub mod Cut
pub mod Options
pub mod Serve
pub mod Send
pub mod Request
pub mod Output
pub mod Generation
pub mod Format
pub mod Receive
