-- ===== src/Server.antt =====
-- internal/server: what the dashboard derives from a job's state.
pub mod Shape
mod Examples
