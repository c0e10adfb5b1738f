-- ===== src/Http.antt =====
-- The HTTP server component, http_server.
pub mod Auth
mod Tests
