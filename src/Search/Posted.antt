-- ===== src/Search/Posted.antt =====
-- The loading of posting bitmaps yields the posted documents, and keeps the cache right.
use syntext.Prelude.{
  ℕ, ◌≡◌, refl, Bool, ◌||◌, inl, inr, none, some, List, [], ◌∷◌, Memᴰ, ltb, Bool-cases,
  Option-cases, arith, ◌⊎◌,
}
use syntext.Posting.Varint
use syntext.Posting.Varint.{VarintError, varint_decode}
use syntext.Posting.Decoded.{varint_decode_total}
use syntext.Index.Bitmap.{RoaringBitmap}
use syntext.Index.PostingCache.{PostingCache, find_entry, get, posting_bitmap_cache_max_bytes}
use syntext.Index.Snapshot.{PostingList, small, large, Segment, IndexSnapshot, to_vec}
use syntext.Search.Postings.{
  Outcome, ok, err, stuck, SearchState, return, and_then, charge, query_too_broad, corrupt_index,
  extend_segments, finish, or_empty, store_posting_bitmap, posting_bitmap_inner,
  posting_bitmap_budgeted, posting_bitmap,
}
use syntext.Search.Meaning.{listed_in, lists, posted}
use syntext.Search.Computes.{IsFor, Coherent, Yields, Computes, Computes-and_then}
use syntext.Search.Cached.{found-entry, insert-Each}

-- A posting list decodes, or has a reason why not.
to_vec-cases :
    (R : RoaringBitmap) (p : PostingList R)
    → ((ids : List ℕ) × (to_vec R p ≡ Varint.ok ids))
      ⊎ ((e : VarintError) × (to_vec R p ≡ Varint.err e))
unfolding to_vec
to_vec-cases R (small bytes) = elim (varint_decode_total bytes) [
  | inl (ids, e, up, fits) ↦ inl (ids, e)
  | inr (x, e) ↦ inr (x, e)
]
to_vec-cases R (large b) = inl (RoaringBitmap.iter R b, refl)

module _ (R : RoaringBitmap) (snap : IndexSnapshot R) where
  open R use {Bitmap, has, serialized_size, has-extend, has-subtract, has-new, contains-iter}

  -- The bitmap so far, with what the segments list, or why it is not known.
  abbrev Extended : ℕ → List (Segment R) → Bitmap → Outcome Bitmap → Type 0
  Extended g segs b (ok b') = (d : ℕ) → has b' d ≡ (has b d || listed_in R segs g d)
  Extended g segs b (err (query_too_broad limit)) = ⊥
  Extended g segs b (err (corrupt_index e)) =
      (seg : Segment R) × (postings : PostingList R) × Memᴰ seg segs
      × (seg.lookup_gram g ≡ some postings)
      × (to_vec R postings ≡ Varint.err e)
  Extended g segs b stuck = ⊥

  Extended-later :
      (g : ℕ) (seg : Segment R) (segs : List (Segment R)) (b b' : Bitmap) (o : Outcome Bitmap)
      → ((d : ℕ) → has b' d ≡ (has b d || lists R (seg.lookup_gram g) d))
      → Extended g segs b' o
      → Extended g (seg ∷ segs) b o
  Extended-later g seg segs b b' (ok b'') here later =
      unfold listed_in in λ d. ground (arith, here d, later d)
  Extended-later g seg segs b b' (err (query_too_broad limit)) here later = later
  Extended-later g seg segs b b' (err (corrupt_index e)) here (s, p, m, l, u) =
      (s, p, Memᴰ.tail m, l, u)
  Extended-later g seg segs b b' stuck here later = later

  extend_segments-Extended :
      (g : ℕ) (segs : List (Segment R)) (b : Bitmap)
      → Extended g segs b (extend_segments R snap g segs b)
  unfolding extend_segments
  extend_segments-Extended g [] b = λ d. unfold listed_in in ground arith
  extend_segments-Extended g (seg ∷ segs) b = elim (Option-cases (seg.lookup_gram g)) [
    | inl none_there ↦
        rw (none_there, extend_segments)
          (Extended-later g seg segs b b _ (λ d. rw none_there (ground arith))
            (extend_segments-Extended g segs b))
    | inr (postings, there) ↦ elim (to_vec-cases R postings) [
      | inl (ids, e) ↦
          rw (there, e, extend_segments)
            (Extended-later g seg segs b (RoaringBitmap.extend R ids b) _
              (λ d. rw (there, e) (has-extend ids b d))
              (extend_segments-Extended g segs (RoaringBitmap.extend R ids b)))
      | inr (x, e) ↦ rw (there, e, extend_segments) (seg, postings, Memᴰ.head refl, there, e)
    ]
  ]

  -- The bitmap that the loading stores is that of the posted documents.
  finish-IsFor :
      (g : ℕ) (b : Bitmap)
      → ((d : ℕ) → has b d ≡ (has (RoaringBitmap.new R) d || listed_in R snap.segments g d))
      → IsFor R snap g (finish R snap g b)
  unfolding posted
  finish-IsFor g b h d =
      let overlay : List ℕ = or_empty (snap.overlay_grams g) in
      rw
        (
          has-subtract (RoaringBitmap.extend R overlay b) snap.delete_set d,
          has-extend overlay b d,
          h d,
          has-new d,
        )
        refl

  store-Yields :
      (g : ℕ) (b : Bitmap) (s : SearchState R)
      → IsFor R snap g b
      → Coherent R snap s.cache
      → Yields R snap (posted R snap g) (store_posting_bitmap R snap g b s)
  unfolding store_posting_bitmap
  store-Yields g b s p h =
      insert-Each R (IsFor R snap) g b posting_bitmap_cache_max_bytes s.cache h p

  Extended-Yields :
      (g : ℕ) (o : Outcome Bitmap) (s : SearchState R)
      → Extended g snap.segments (RoaringBitmap.new R) o
      → Coherent R snap s.cache
      → Yields R snap (posted R snap g) (elim o [
        | ok bitmap ↦ store_posting_bitmap R snap g (finish R snap g bitmap) s
        | err e ↦ (err e, s)
        | stuck ↦ (stuck, s)
      ])
  Extended-Yields g (ok b) s x h = store-Yields g (finish R snap g b) s (finish-IsFor g b x) h
  Extended-Yields g (err (query_too_broad limit)) s x h = absurd x
  Extended-Yields g (err (corrupt_index e)) s (seg, p, m, l, u) h = ((seg, g, p, m, l, u), h)
  Extended-Yields g stuck s x h = absurd x

  pub Computes-posting_bitmap_inner :
      (g : ℕ) → Computes R snap (posting_bitmap_inner R snap g) (posted R snap g)
  unfolding posting_bitmap_inner
  Computes-posting_bitmap_inner g s h =
      Extended-Yields g _ s (extend_segments-Extended g snap.segments (RoaringBitmap.new R)) h

  get-cases :
      (g : ℕ) (c : PostingCache R)
      → Coherent R snap c
      → (get R g c ≡ none) ⊎ ((b : Bitmap) × (get R g c ≡ some b) × IsFor R snap g b)
  unfolding get
  get-cases g c h = elim (Option-cases (find_entry R g c.entries)) [
    | inl e ↦ inl (rw e refl)
    | inr ((k, b, size), e) ↦
        inr (b, rw e refl, found-entry R (IsFor R snap) g c.entries k b size h e)
  ]

  Computes-charge_then :
      (b : Bitmap) (f : ℕ → Bool)
      → ((d : ℕ) → has b d ≡ f d)
      → Computes R snap (and_then R (charge R (serialized_size b)) (λ _. return R b)) f
  unfolding charge
  Computes-charge_then b f e s h = elim (Bool-cases (ltb s.remaining (serialized_size b))) [
    | inl over ↦ rw over (refl, h)
    | inr fits ↦ rw fits (e, h)
  ]

  pub Computes-posting_bitmap_budgeted :
      (g : ℕ) → Computes R snap (posting_bitmap_budgeted R snap g) (posted R snap g)
  unfolding posting_bitmap_budgeted
  Computes-posting_bitmap_budgeted g s h = elim (get-cases g s.cache h) [
    | inl e ↦
        rw (e, posting_bitmap_budgeted)
          (Computes-and_then R snap (posting_bitmap_inner R snap g) (posted R snap g)
            (posted R snap g) (λ b. and_then R (charge R (serialized_size b)) (λ _. return R b))
            (Computes-posting_bitmap_inner g) (λ b e. Computes-charge_then b (posted R snap g) e) s
            h)
    | inr (b, e, p) ↦ rw (e, posting_bitmap_budgeted) (p, h)
  ]

  pub Computes-posting_bitmap :
      (g : ℕ) → Computes R snap (posting_bitmap R snap g) (posted R snap g)
  unfolding posting_bitmap
  Computes-posting_bitmap g s h = elim (get-cases g s.cache h) [
    | inl e ↦ rw (e, posting_bitmap) (Computes-posting_bitmap_inner g s h)
    | inr (b, e, p) ↦ rw (e, posting_bitmap) (p, h)
  ]
