-- ===== src/Config.antt =====
-- configParser.c, and `readConfigFile` of rootsh.c that uses it.
pub mod Trim
pub mod TrimLaws
pub mod Split
pub mod SplitLaws
pub mod File
pub mod FileLaws
pub mod Assignments
mod Tests
