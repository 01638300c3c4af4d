-- ===== src/Index/Eviction.antt =====
-- The posting cache keeps to its budget by dropping the oldest entries.
use syntext.Prelude.{
  ℕ, ◌+◌, ◌-◌, ◌≤◌, ◌≡◌, refl, ap, ◌⊎◌, inl, inr, true, Option, none, some, List, [], ◌∷◌, ◌++◌,
  ltb, ◌==◌, Bool-cases, arith,
}
use syntext.Index.Bitmap.{RoaringBitmap}
use syntext.Index.PostingCache.{
  Entry, PostingCache, find_entry, remove_entry, get, freed, evict, insert_with_budget,
}

module _ (R : RoaringBitmap) where
  open R use {Bitmap, serialized_size}

  abbrev pub keys : List (Entry R) → List ℕ
  keys [] = []
  keys ((k, b, size) ∷ es) = k ∷ keys es

  abbrev pub total : List (Entry R) → ℕ
  total [] = 0
  total ((k, b, size) ∷ es) = size + total es

  -- The cache whose entries were stored in this order.
  abbrev pub holding : List (Entry R) → PostingCache R
  holding es = record { entries = es; order = keys es; bytes = total es }

  keys-append : (xs ys : List (Entry R)) → keys (xs ++ ys) ≡ keys xs ++ keys ys
  keys-append [] ys = refl
  keys-append ((k, b, size) ∷ xs) ys = ap (◌∷◌ k) (keys-append xs ys)

  total-append : (xs ys : List (Entry R)) → total (xs ++ ys) ≡ total xs + total ys
  total-append [] ys = omega arith
  total-append ((k, b, size) ∷ xs) ys = omega (arith, total-append xs ys)

  -- The oldest entries go until the new one fits, or none is left.
  abbrev Evicted : ℕ → ℕ → List (Entry R) → PostingCache R → Type 0
  Evicted size budget es c =
      (gone : List (Entry R)) × (kept : List (Entry R)) × (es ≡ gone ++ kept)
      × (c ≡ holding kept)
      × ((total kept + size ≤ budget) ⊎ (kept ≡ []))

  first-removed :
      (k : ℕ) (b : Bitmap) (s : ℕ) (es : List (Entry R))
      → (remove_entry R k ((k, b, s) ∷ es) ≡ es)
        × ((s + total es) - freed R (find_entry R k ((k, b, s) ∷ es)) ≡ total es)
  unfolding remove_entry find_entry
  first-removed k b s es =
      let same : (k == k) ≡ true = ground arith in (rw same refl, rw same (omega arith))

  evict-Evicted :
      (size budget : ℕ) (es : List (Entry R))
      → Evicted size budget es (evict R size budget (keys es) es (total es))
  unfolding evict
  evict-Evicted size budget [] = ([], [], refl, refl, inr refl)
  evict-Evicted size budget ((k, b, s) ∷ es) =
      elim (Bool-cases (ltb budget ((s + total es) + size))) [
        | inl over ↦
            let (removed, left) = first-removed k b s es in
            let (gone, kept, split, cache, bound) = evict-Evicted size budget es in
            (
              (k, b, s) ∷ gone,
              kept,
              ap (◌∷◌ (k, b, s)) split,
              rw (over, removed, left) cache,
              bound,
            )
        | inr fits ↦ ([], (k, b, s) ∷ es, refl, rw fits refl, inl (ground arith))
      ]

  find_entry-append :
      (key : ℕ) (gone kept : List (Entry R))
      → find_entry R key (gone ++ kept) ≡ none
      → find_entry R key kept ≡ none
  unfolding find_entry
  find_entry-append key [] kept h = h
  find_entry-append key ((k, b, s) ∷ gone) kept h = elim (Bool-cases (k == key)) [
    | inl same ↦ let there : ◌≡◌ {A = Option (Entry R)} (some (k, b, s)) none = rw same at h in cc
    | inr other ↦ find_entry-append key gone kept (rw other at h)
  ]

  find_entry_last :
      (key : ℕ) (b : Bitmap) (s : ℕ) (es : List (Entry R))
      → find_entry R key es ≡ none
      → find_entry R key (es ++ ((key, b, s) ∷ [])) ≡ some (key, b, s)
  unfolding find_entry
  find_entry_last key b s [] h = let same : (key == key) ≡ true = ground arith in rw same refl
  find_entry_last key b s ((k, b', s') ∷ es) h = elim (Bool-cases (k == key)) [
    | inl same ↦ let there : ◌≡◌ {A = Option (Entry R)} (some (k, b', s')) none = rw same at h in cc
    | inr other ↦ rw other (find_entry_last key b s es (rw other at h))
  ]

  -- An insertion of a new key into a cache with these entries drops entries from the oldest on and
  -- stores the bitmap last; order and byte count stay those of the entries; the bytes keep to the
  -- budget unless the new entry is alone; and the key is found.
  pub insert_with_budget-fifo :
      (key : ℕ) (b : Bitmap) (budget : ℕ) (es : List (Entry R))
      → find_entry R key es ≡ none
      → (gone : List (Entry R)) × (kept : List (Entry R)) × (es ≡ gone ++ kept)
        × ((insert_with_budget R key b budget (holding es)).1
            ≡ holding (kept ++ ((key, b, serialized_size b) ∷ [])))
        × ((PostingCache.bytes (insert_with_budget R key b budget (holding es)).1 ≤ budget)
            ⊎ (kept ≡ []))
        × (get R key (insert_with_budget R key b budget (holding es)).1 ≡ some b)
  unfolding insert_with_budget get
  insert_with_budget-fifo key b budget es h =
      let size : ℕ = serialized_size b in
      let (gone, kept, split, cache, bound) = evict-Evicted size budget es in
      let later : find_entry R key kept ≡ none = find_entry-append key gone kept (rw split at h) in
      let sum : total (kept ++ ((key, b, size) ∷ [])) ≡ total kept + size =
        omega (arith, total-append kept ((key, b, size) ∷ [])) in
      (
        gone,
        kept,
        split,
        rw (h, insert_with_budget, cache, keys-append kept ((key, b, size) ∷ []), sum) refl,
        rw (h, insert_with_budget, cache) bound,
        rw (h, insert_with_budget, cache, find_entry_last key b size kept later) refl,
      )
