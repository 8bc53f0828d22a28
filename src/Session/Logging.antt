-- ===== src/Session/Logging.antt =====
-- The logging functions of rootsh.c.
pub mod Output
pub mod Begin
pub mod End
pub mod BeginLaws
pub mod EndLaws
pub mod CopyLaws
pub mod CopiedLaws
pub mod RetryLaws
pub mod CloseLaws
pub mod BegunLaws
