-- ===== src/Tests.antt =====
-- Concrete streams, sessions and requests, and what the properties say of them.
pub mod Attempts
pub mod Catalogue
pub mod Frames
pub mod Wire
pub mod Names
pub mod Payloads
pub mod Tokens
pub mod Replies
pub mod Responses
pub mod Requests
pub mod Schemas
pub mod Sessions
pub mod Streams
