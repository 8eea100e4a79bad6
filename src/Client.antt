-- ===== src/Client.antt =====
-- internal/client: what stands between the server and its providers.
pub mod Events
pub mod Lines
pub mod Json
