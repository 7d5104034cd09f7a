-- ===== src/Exporters.antt =====
-- pkg/exporters: the backends of the exporter.
pub mod Env
pub mod Postgres
pub mod Http
pub mod S3
pub mod Stdout
