-- ===== src/Index.antt =====
-- src/index: the read side of the index.
pub mod Bitmap
pub mod PostingCache
pub mod Snapshot
pub mod Pending
pub mod Eviction
pub mod Valid
pub mod LastEdit
pub mod DeleteSet
pub mod CompactPlan
pub mod CompactBounds
pub mod Overlay
pub mod Commit
