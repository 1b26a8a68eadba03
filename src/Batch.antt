-- ===== src/Batch.antt =====
-- Serverless text batching: internal/core/io_tunnel/model_serverless_batch.go.
pub mod Split
pub mod Run
