-- ===== src/Segment.antt =====
-- src/index/segment/: reading a segment's dictionary and document table.
pub mod Bytes
pub mod DictRead
pub mod Dictionary
pub mod Lookup
pub mod Docs
pub mod DocTable
pub mod IterDocs
pub mod DocBounds
