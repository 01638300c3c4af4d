-- ===== src/Search/Answers.antt =====
-- `execute_query` answers with the documents that its query selects; no document that matches a
-- pattern is lost between the planner and the answer.
use syntext.Prelude.{ℕ, ◌≡◌, refl, Bool, true, List, [], ◌∷◌, contains, arith}
use syntext.Index.Bitmap.{RoaringBitmap}
use syntext.Index.PostingCache.{PostingCache}
use syntext.Index.Snapshot.{IndexSnapshot}
use syntext.Query.GramQuery.{GramQuery, Queries, holds, all_hold, any_holds, has_all}
use syntext.Search.Postings.{
  Outcome, ok, err, stuck, SearchState, return, query_too_broad, corrupt_index,
  max_query_posting_bytes, continue_with,
}
use syntext.Search.Execute.{execute_query_bitmap, execute_query}
use syntext.Search.Meaning.{live, posted, posted_all, selects, all_select, any_selects, Damaged}
use syntext.Search.Computes.{Coherent, Yields}
use syntext.Search.Exact.{execute-Computes}

module _ (R : RoaringBitmap) (snap : IndexSnapshot R) where
  open R use {Bitmap, iter, contains-iter}

  -- The ids selected, or an error with its cause: the budget, or bytes that do not decode.
  abbrev pub Answers : GramQuery → Outcome (List ℕ) → Type 0
  Answers q (ok ids) = (d : ℕ) → contains d ids ≡ selects R snap q d
  Answers q (err (query_too_broad limit)) = limit ≡ max_query_posting_bytes
  Answers q (err (corrupt_index e)) = Damaged R snap e
  Answers q stuck = ⊥

  ids-Answers :
      (q : GramQuery) (r : Outcome Bitmap × SearchState R)
      → Yields R snap (selects R snap q) r
      → Answers q (continue_with R r (λ bitmap. return R (iter bitmap))).0
        × Coherent R snap
            (SearchState.cache (continue_with R r (λ bitmap. return R (iter bitmap))).1)
  ids-Answers q (ok b, s) (e, h) = (λ d. rw (contains-iter b d) (e d), h)
  ids-Answers q (err (query_too_broad limit), s) y = y
  ids-Answers q (err (corrupt_index x), s) y = y
  ids-Answers q (stuck, s) y = y

  -- With a cache whose bitmaps are right, `execute_query` answers with exactly the documents that the
  -- query selects, or refuses for its budget or for a posting list that does not decode; the cache
  -- stays right.
  pub execute_query-Answers :
      (q : GramQuery) (c : PostingCache R)
      → Coherent R snap c
      → Answers q (execute_query R snap q c).0 × Coherent R snap (execute_query R snap q c).1
  unfolding execute_query
  execute_query-Answers q c h =
      let s : SearchState R = record { cache = c; remaining = max_query_posting_bytes } in
      ids-Answers q (execute_query_bitmap R snap q s) (execute-Computes R snap q s h)

module _ (R : RoaringBitmap) (snap : IndexSnapshot R) (has_gram : ℕ → Bool) (d : ℕ)
    (is_live : live R snap d ≡ true)
    (indexed : (g : ℕ) → has_gram g ≡ true → posted R snap g d ≡ true) where
  posted-grams : (gs : List ℕ) → has_all has_gram gs ≡ true → posted_all R snap gs d ≡ true
  unfolding has_all posted_all
  posted-grams [] h = refl
  posted-grams (g ∷ gs) h = ground (arith, indexed g, posted-grams gs)

  mutual
    unfolding holds selects all_hold any_holds all_select any_selects

    pub holds-selects : (q : GramQuery) → holds has_gram q ≡ true → selects R snap q d ≡ true
    holds-selects (GramQuery.and Queries.nil) h = is_live
    holds-selects (GramQuery.and (Queries.cons q qs)) h =
        ground (arith, holds-selects q, all_hold-select qs)
    holds-selects (GramQuery.or qs) h = any_holds-selects qs h
    holds-selects (GramQuery.grams []) h = is_live
    holds-selects (GramQuery.grams (g ∷ gs)) h = posted-grams (g ∷ gs) h
    holds-selects GramQuery.all h = is_live
    holds-selects GramQuery.none h = cc

    all_hold-select : (qs : Queries) → all_hold has_gram qs ≡ true → all_select R snap qs d ≡ true
    all_hold-select Queries.nil h = refl
    all_hold-select (Queries.cons q qs) h = ground (arith, holds-selects q, all_hold-select qs)

    any_holds-selects :
        (qs : Queries) → any_holds has_gram qs ≡ true → any_selects R snap qs d ≡ true
    any_holds-selects Queries.nil h = cc
    any_holds-selects (Queries.cons q qs) h = ground (arith, holds-selects q, any_holds-selects qs)
