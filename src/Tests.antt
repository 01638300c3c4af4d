-- ===== src/Tests.antt =====
-- Runs of the model, and the theorems at concrete inputs.
mod Toy
mod Tokenizer
mod Query
mod Posting
mod ToyBitmap
mod Search
mod Index
mod Pending
mod Hook
mod Codec
mod Segment
mod Compact
mod Verifier
mod Overlay
mod Paths
mod Commit
