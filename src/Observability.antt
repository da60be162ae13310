-- ===== src/Observability.antt =====
-- internal/observability: the health of the daemon.
pub mod Health
