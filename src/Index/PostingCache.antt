-- ===== src/Index/PostingCache.antt =====
-- src/index/snapshot.rs: `PostingCache`, posting bitmaps under a byte budget, oldest out first. The
-- hash map is an association list, and a new entry goes to its end.
use syntext.Prelude.{
  ℕ, ◌+◌, ◌-◌, ◌*◌, Option, none, some, List, [], ◌∷◌, ◌++◌, ltb, ◌==◌, if◌then◌else◌,
}
use syntext.Index.Bitmap.{RoaringBitmap}

abbrev pub posting_bitmap_cache_max_bytes : ℕ
posting_bitmap_cache_max_bytes = 256 * 1024 * 1024

module _ (R : RoaringBitmap) where
  open R use {Bitmap, serialized_size}

  -- A key, its bitmap and the bitmap's serialized size.
  abbrev pub Entry : Type 0
  Entry = ℕ × Bitmap × ℕ

  pub record PostingCache : Type 0 where
    pub entries : List Entry
    pub order : List ℕ
    pub bytes : ℕ

  unfoldable pub empty_cache : PostingCache
  empty_cache = record { entries = []; order = []; bytes = 0 }

  unfoldable pub find_entry : ℕ → List Entry → Option Entry
  find_entry key [] = none
  find_entry key ((k, b, size) ∷ es) = if k == key then some (k, b, size) else find_entry key es

  unfoldable pub remove_entry : ℕ → List Entry → List Entry
  remove_entry key [] = []
  remove_entry key ((k, b, size) ∷ es) = if k == key then es else (k, b, size) ∷ remove_entry key es

  abbrev pub entry_bitmap : Option Entry → Option Bitmap
  entry_bitmap none = none
  entry_bitmap (some (k, b, size)) = some b

  unfoldable pub get : ℕ → PostingCache → Option Bitmap
  get key c = entry_bitmap (find_entry key c.entries)

  -- `if let Some((_, old_size)) = map.remove(&old) { bytes -= old_size }`
  abbrev pub freed : Option Entry → ℕ
  freed none = 0
  freed (some (k, b, size)) = size

  -- `while self.bytes + size > budget`, popping the front of `order`.
  unfoldable pub evict : ℕ → ℕ → List ℕ → List Entry → ℕ → PostingCache
  evict size budget [] entries bytes = record { entries = entries; order = []; bytes = bytes }
  evict size budget (old ∷ order) entries bytes =
      let later =
        evict size budget order (remove_entry old entries)
          (bytes - freed (find_entry old entries)) in
      if ltb budget (bytes + size)
      then later
      else record { entries = entries; order = old ∷ order; bytes = bytes }

  abbrev pub push_entry : ℕ → Bitmap → ℕ → PostingCache → PostingCache
  push_entry key b size c = record {
    entries = c.entries ++ ((key, b, size) ∷ []);
    order = c.order ++ (key ∷ []);
    bytes = c.bytes + size;
  }

  -- The bitmap to use and the new cache: an entry that is there already wins.
  unfoldable pub insert_with_budget : ℕ → Bitmap → ℕ → PostingCache → Bitmap × PostingCache
  unfolding evict
  insert_with_budget key b budget c = elim (find_entry key c.entries) [
    | some (k, existing, size) ↦ (existing, c)
    | none ↦
        let size = serialized_size b in
        (b, push_entry key b size (evict size budget c.order c.entries c.bytes))
  ]
