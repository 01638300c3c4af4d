-- ===== src/Search/Computes.antt =====
-- Searches that compute a set of documents, from any cache whose bitmaps are right.
use syntext.Prelude.{ℕ, ◌≡◌, Bool, All}
use syntext.Index.Bitmap.{RoaringBitmap}
use syntext.Index.PostingCache.{PostingCache, Entry}
use syntext.Index.Snapshot.{IndexSnapshot}
use syntext.Search.Postings.{
  Outcome, ok, err, stuck, SearchState, Search, return, continue_with, and_then, query_too_broad,
  corrupt_index, max_query_posting_bytes,
}
use syntext.Search.Meaning.{posted, Damaged}

module _ (R : RoaringBitmap) (snap : IndexSnapshot R) where
  open R use {Bitmap, has, serialized_size}

  abbrev pub IsFor : ℕ → Bitmap → Type 0
  IsFor g b = (d : ℕ) → has b d ≡ posted R snap g d

  -- Each bitmap of the cache has the documents posted under its gram.
  abbrev pub Coherent : PostingCache R → Type 0
  Coherent c = All (λ (e : Entry R). IsFor e.0 e.1) c.entries

  -- A result is the set `f`, or an error with its cause.
  abbrev pub Right : (ℕ → Bool) → Outcome Bitmap → Type 0
  Right f (ok b) = (d : ℕ) → has b d ≡ f d
  Right f (err (query_too_broad limit)) = limit ≡ max_query_posting_bytes
  Right f (err (corrupt_index e)) = Damaged R snap e
  Right f stuck = ⊥

  abbrev pub Yields : (ℕ → Bool) → Outcome Bitmap × SearchState R → Type 0
  Yields f r = Right f r.0 × Coherent r.1.cache

  abbrev pub Computes : Search R Bitmap → (ℕ → Bool) → Type 0
  Computes m f = (s : SearchState R) → Coherent s.cache → Yields f (m s)

  pub Right-ext :
      {f g : ℕ → Bool} (o : Outcome Bitmap) → ((d : ℕ) → f d ≡ g d) → Right f o → Right g o
  Right-ext (ok b) e r = λ d. rw (← e d) (r d)
  Right-ext (err (query_too_broad limit)) e r = r
  Right-ext (err (corrupt_index x)) e r = r
  Right-ext stuck e r = r

  pub Computes-ext :
      (m : Search R Bitmap) {f g : ℕ → Bool} → Computes m f → ((d : ℕ) → f d ≡ g d) → Computes m g
  Computes-ext m c e s h = let (r, k) = c s h in (Right-ext (m s).0 e r, k)

  pub Computes-return :
      (b : Bitmap) (f : ℕ → Bool) → ((d : ℕ) → has b d ≡ f d) → Computes (return R b) f
  Computes-return b f e s h = (e, h)

  continue_with-Yields :
      (f g : ℕ → Bool) (r : Outcome Bitmap × SearchState R) (k : Bitmap → Search R Bitmap)
      → Yields f r
      → ((b : Bitmap) → ((d : ℕ) → has b d ≡ f d) → Computes (k b) g)
      → Yields g (continue_with R r k)
  continue_with-Yields f g (ok b, s) k (e, h) next = next b e s h
  continue_with-Yields f g (err (query_too_broad limit), s) k y next = y
  continue_with-Yields f g (err (corrupt_index x), s) k y next = y
  continue_with-Yields f g (stuck, s) k y next = y

  pub Computes-and_then :
      (m : Search R Bitmap) (f g : ℕ → Bool) (k : Bitmap → Search R Bitmap)
      → Computes m f
      → ((b : Bitmap) → ((d : ℕ) → has b d ≡ f d) → Computes (k b) g)
      → Computes (and_then R m k) g
  Computes-and_then m f g k c next s h = continue_with-Yields f g (m s) k (c s h) next
