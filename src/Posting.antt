-- ===== src/Posting.antt =====
-- src/posting: posting lists and their delta-varint encoding.
pub mod Varint
pub mod RoundTrip
pub mod Decoded
