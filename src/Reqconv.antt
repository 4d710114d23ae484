-- ===== src/Reqconv.antt =====
-- internal/reqconv: the conversion of an Anthropic request into a Kiro payload.
pub mod Message
pub mod Normalizer
pub mod ServerTools
pub mod Json
pub mod Schema
pub mod Dereference
pub mod ToolNames
pub mod ToolResults
pub mod Content
pub mod History
pub mod Tools
pub mod Payload
