-- ===== src/Agent.antt =====
-- internal/agent: the connection to the Panel.
pub mod Backoff
