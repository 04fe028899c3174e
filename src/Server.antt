-- ===== src/Server.antt =====
-- internal/server: the parts of the HTTP server that keep state.
pub mod Capture
pub mod Sse
