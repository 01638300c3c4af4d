-- ===== src/Search/Probing.antt =====
-- The selectivity probe ends with an answer or an error with its cause, and keeps the cache right.
use syntext.Prelude.{
  ℕ, ◌≡◌, inl, inr, Bool, true, List, [], ◌∷◌, if◌then◌else◌, is_empty, ◌==◌, Bool-cases,
}
use syntext.Index.Bitmap.{RoaringBitmap}
use syntext.Index.PostingCache.{PostingCache}
use syntext.Index.Snapshot.{IndexSnapshot, all_doc_ids}
use syntext.Search.Postings.{
  Outcome, ok, err, stuck, query_too_broad, corrupt_index, SearchState, Search, return, and_then,
  continue_with, posting_bitmap, max_query_posting_bytes,
}
use syntext.Search.Execute.{probe, probe_third, enough, should_use_index, with_cardinality}
use syntext.Search.Cardinality.{sort_by_cached_key}
use syntext.Search.Meaning.{posted, Damaged}
use syntext.Search.Computes.{Coherent, Yields}
use syntext.Search.Posted.{Computes-posting_bitmap}
use syntext.Search.Candidates.{use_index}

module _ (R : RoaringBitmap) (snap : IndexSnapshot R) where
  open R use {Bitmap, contains-iter}

  -- A result with the property `P`, or an error with its cause.
  abbrev pub Ends : {A : Type 0} → (A → Type 0) → Outcome A → Type 0
  Ends P (ok a) = P a
  Ends P (err (query_too_broad limit)) = limit ≡ max_query_posting_bytes
  Ends P (err (corrupt_index e)) = Damaged R snap e
  Ends P stuck = ⊥

  abbrev pub Any : Bool → Type 0
  Any b = Unit {0}

  abbrev Probes : Search R Bool → Type 0
  Probes m =
      (s : SearchState R)
      → Coherent R snap s.cache
      → Ends Any (m s).0 × Coherent R snap (m s).1.cache

  continue_with-Probes :
      (f : ℕ → Bool) (r : Outcome Bitmap × SearchState R) (k : Bitmap → Search R Bool)
      → Yields R snap f r
      → ((b : Bitmap) → Probes (k b))
      → Ends Any (continue_with R r k).0
        × Coherent R snap (SearchState.cache (continue_with R r k).1)
  continue_with-Probes f (ok b, s) k (e, h) next = next b s h
  continue_with-Probes f (err (query_too_broad limit), s) k y next = y
  continue_with-Probes f (err (corrupt_index x), s) k y next = y
  continue_with-Probes f (stuck, s) k y next = y

  load-Probes :
      (g : ℕ) (k : Bitmap → Search R Bool)
      → ((b : Bitmap) → Probes (k b))
      → Probes (and_then R (posting_bitmap R snap g) k)
  load-Probes g k next s h =
      continue_with-Probes (posted R snap g) (posting_bitmap R snap g s) k
        (Computes-posting_bitmap R snap g s h) next

  module _ (selective : ℕ → ℕ → Bool) where
    probe_third-Probes :
        (acc : Bitmap) (xs : List (ℕ × ℕ)) → Probes (probe_third R snap selective acc xs)
    probe_third-Probes acc [] s h = (tt, h)
    probe_third-Probes acc (x ∷ xs) s h =
        load-Probes x.1 (λ b. return R (enough R snap selective (RoaringBitmap.intersect R acc b)))
          (λ b s h. (tt, h)) s h

    -- What follows the first two postings.
    abbrev settle : Bitmap → List (ℕ × ℕ) → Search R Bool
    settle acc xs =
        if enough R snap selective acc then return R true else probe_third R snap selective acc xs

    settle-Probes : (acc : Bitmap) (xs : List (ℕ × ℕ)) → Probes (settle acc xs)
    settle-Probes acc xs s h = elim (Bool-cases (enough R snap selective acc)) [
      | inl few ↦ rw few (tt, h)
      | inr many ↦ rw many (probe_third-Probes acc xs s h)
    ]

    probe-Probes : (xs : List (ℕ × ℕ)) → Probes (probe R snap selective xs)
    unfolding probe
    probe-Probes [] s h = (tt, h)
    probe-Probes (x ∷ []) s h = (tt, h)
    probe-Probes (x ∷ y ∷ xs) s h =
        elim (Bool-cases (selective x.0 (RoaringBitmap.len R (all_doc_ids R snap)))) [
          | inl few ↦ rw few (tt, h)
          | inr many ↦ rw many (
              load-Probes x.1
                (λ a.
                  and_then R (posting_bitmap R snap y.1)
                    (λ b. settle (RoaringBitmap.intersect R a b) xs))
                (λ a.
                  load-Probes y.1 (λ b. settle (RoaringBitmap.intersect R a b) xs)
                    (λ b. settle-Probes (RoaringBitmap.intersect R a b) xs))
                s h)
        ]

    should_use_index-Probes : (hashes : List ℕ) → Probes (should_use_index R snap selective hashes)
    unfolding should_use_index
    should_use_index-Probes hashes s h = elim (Bool-cases (is_empty hashes)) [
      | inl none_given ↦ rw none_given (tt, h)
      | inr given ↦ elim (Bool-cases (RoaringBitmap.len R (all_doc_ids R snap) == 0)) [
        | inl no_docs ↦ rw (given, no_docs) (tt, h)
        | inr docs ↦
            rw (given, docs)
              (probe-Probes (sort_by_cached_key (with_cardinality R snap hashes)) s h)
      ]
    ]

    pub use_index-Ends :
        (hashes : List ℕ) (c : PostingCache R)
        → Coherent R snap c
        → Ends Any (use_index R snap selective hashes c).0
          × Coherent R snap (use_index R snap selective hashes c).1
    unfolding use_index
    use_index-Ends hashes c h =
        should_use_index-Probes hashes (record { cache = c; remaining = 0 }) h
