-- ===== src/Messages.antt =====
-- internal/app/messages: the service that answers POST /v1/messages.
pub mod Streaming
pub mod Session
pub mod Effort
