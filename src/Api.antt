-- ===== src/Api.antt =====
-- internal/api: the services of the local gRPC server.
pub mod Filesystem
