-- ===== src/Search/Cached.antt =====
-- A property of the bitmaps in the posting cache is kept by an insertion.
use syntext.Prelude.{
  ℕ, ◌-◌, ◌≡◌, inl, inr, Option, some, List, [], ◌∷◌, ◌++◌, ◌+◌, All, ltb, ◌==◌, Bool-cases,
  Option-cases, arith,
}
use syntext.Index.Bitmap.{RoaringBitmap}
use syntext.Index.PostingCache.{
  PostingCache, Entry, find_entry, remove_entry, freed, evict, insert_with_budget,
}

module _ (R : RoaringBitmap) (P : ℕ → RoaringBitmap.Bitmap R → Type 0) where
  abbrev Each : List (Entry R) → Type 0
  Each = All (λ e. P e.0 e.1)

  pub found-entry :
      (key : ℕ) (es : List (Entry R)) (k : ℕ) (b : RoaringBitmap.Bitmap R) (size : ℕ)
      → Each es
      → find_entry R key es ≡ some (k, b, size)
      → P key b
  unfolding find_entry
  found-entry key [] k b size h e = cc
  found-entry key ((k', b', size') ∷ es) k b size h e = elim (Bool-cases (k' == key)) [
    | inl same ↦
        let here : ◌≡◌ {A = Option (Entry R)} (some (k', b', size')) (some (k, b, size)) =
          rw same at e in
        let key_eq : k' ≡ key = ground arith in
        let bitmap_eq : b' ≡ b = cc in rw (← key_eq, ← bitmap_eq) h.0
    | inr other ↦ found-entry key es k b size h.1 (rw other at e)
  ]

  remove_entry-Each : (key : ℕ) (es : List (Entry R)) → Each es → Each (remove_entry R key es)
  unfolding remove_entry
  remove_entry-Each key [] h = tt
  remove_entry-Each key ((k, b, size) ∷ es) h = elim (Bool-cases (k == key)) [
    | inl same ↦ rw same h.1
    | inr other ↦ rw other (h.0, remove_entry-Each key es h.1)
  ]

  append-Each :
      (es : List (Entry R)) (key : ℕ) (b : RoaringBitmap.Bitmap R) (size : ℕ)
      → Each es
      → P key b
      → Each (es ++ ((key, b, size) ∷ []))
  append-Each [] key b size h p = (p, tt)
  append-Each (e ∷ es) key b size h p = (h.0, append-Each es key b size h.1 p)

  evict-Each :
      (size budget : ℕ) (order : List ℕ) (es : List (Entry R)) (bytes : ℕ)
      → Each es
      → Each (PostingCache.entries (evict R size budget order es bytes))
  unfolding evict
  evict-Each size budget [] es bytes h = h
  evict-Each size budget (old ∷ order) es bytes h = elim (Bool-cases (ltb budget (bytes + size))) [
    | inl over ↦ rw over (
        evict-Each size budget order (remove_entry R old es) (bytes - freed R (find_entry R old es))
          (remove_entry-Each old es h))
    | inr fits ↦ rw fits h
  ]

  -- What is stored and what is handed out have the property of the new bitmap.
  pub insert-Each :
      (key : ℕ) (b : RoaringBitmap.Bitmap R) (budget : ℕ) (c : PostingCache R)
      → Each c.entries
      → P key b
      → P key (insert_with_budget R key b budget c).0
        × Each (PostingCache.entries (insert_with_budget R key b budget c).1)
  unfolding insert_with_budget
  insert-Each key b budget c h p = elim (Option-cases (find_entry R key c.entries)) [
    | inl e ↦
        rw (e, insert_with_budget)
          (p, append-Each _ key b _ (evict-Each _ budget c.order c.entries c.bytes h) p)
    | inr ((k, old, size), e) ↦
        rw (e, insert_with_budget) (found-entry key c.entries k old size h e, h)
  ]
