-- ===== src/Syslog.antt =====
-- write2syslog.c: the escape filter and the line buffer in front of syslog.
pub mod Strip
pub mod Filtered
pub mod Tokens
pub mod TokenSteps
pub mod TokenLaws
pub mod StripLaws
pub mod Writer
pub mod Stream
pub mod Lines
pub mod Calls
pub mod Appended
mod Tests
