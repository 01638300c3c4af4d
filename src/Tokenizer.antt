-- ===== src/Tokenizer.antt =====
-- src/tokenizer: sparse n-grams. `Boundaries` finds the boundary positions of a byte sequence,
-- `Grams` extracts the grams of a document, `Covering` those of a query.
pub mod Boundaries
pub mod Grams
pub mod Covering
pub mod Positions
pub mod Spans
pub mod Camel
pub mod Indexed
pub mod Required
pub mod Merging
