-- ===== src/Hook.antt =====
-- src/hook: the rewriting of shell commands.
pub mod Shell
pub mod Args
pub mod Rewrite
pub mod Posix
pub mod Quote
pub mod Segment
