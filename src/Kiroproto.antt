-- ===== src/Kiroproto.antt =====
-- internal/kiroproto: the events of a Kiro reply, and how they are read.
pub mod Event
pub mod Checksum
pub mod Frame
pub mod Headers
pub mod ToolUse
pub mod Stream
pub mod Wire
