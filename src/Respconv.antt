-- ===== src/Respconv.antt =====
-- internal/respconv: from Kiro events to Anthropic responses.
pub mod SseEvent
pub mod State
pub mod ThinkingTags
pub mod Stop
pub mod Accumulator
pub mod ToolCalls
pub mod Result
pub mod NonStreaming
pub mod Sse
