-- ===== src/Codec/Roaring.antt =====
-- src/posting/roaring_util.rs: the crate's serialization of bitmaps and the crate's hash xxh64, as
-- the sidecars use them.
use syntext.Prelude.{ℕ, ◌^◌, ◌<◌, ◌≡◌, List, Option, some}

pub record Format : Type 1 where
  pub Bitmap : Type 0
  pub serialize : Bitmap → List ℕ
  pub deserialize : List ℕ → Option Bitmap
  pub xxh64 : List ℕ → ℕ → ℕ
  pub deserialize-serialize : (b : Bitmap) → deserialize (serialize b) ≡ some b
  pub xxh64_bound : (bytes : List ℕ) (seed : ℕ) → xxh64 bytes seed < 256 ^ 8
