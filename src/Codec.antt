-- ===== src/Codec.antt =====
-- What the index stores beside its segments, as bytes, and how it is read back.
pub mod Le
pub mod Reader
pub mod Roaring
pub mod Header
pub mod Accepted
pub mod DeletesIdx
pub mod DeletesRead
pub mod Catalogue
pub mod CatalogueRoundTrip
pub mod Sorted
pub mod PathsIdx
pub mod PathsRoundTrip
