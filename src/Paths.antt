-- ===== src/Paths.antt =====
-- src/path: the index of the paths.
pub mod Names
pub mod PathIndex
pub mod Metadata
pub mod Table
pub mod Valid
pub mod Added
pub mod Stable
pub mod Built
pub mod Glob
pub mod GlobMeaning
pub mod GlobMatches
pub mod GlobEnds
pub mod Filter
pub mod FilterMatches
