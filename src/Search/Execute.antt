-- ===== src/Search/Execute.antt =====
-- src/search/executor.rs: `execute_query_bitmap`, `execute_query` and `should_use_index`. The
-- operands of a conjunction are the searches they stand for, each with its key.
use syntext.Prelude.{ℕ, Bool, true, false, ◌||◌, List, [], ◌∷◌, ◌==◌, if◌then◌else◌, is_empty}
use syntext.Index.Bitmap.{RoaringBitmap}
use syntext.Index.PostingCache.{PostingCache}
use syntext.Index.Snapshot.{IndexSnapshot, all_doc_ids}
use syntext.Query.GramQuery.{GramQuery, Queries}
use syntext.Search.Postings.{
  Outcome, Search, return, and_then, posting_bitmap_budgeted, posting_bitmap,
  max_query_posting_bytes,
}
use syntext.Search.Cardinality.{sort_by_cached_key, gram_cardinality, query_cardinality_upper_bound}

module _ (R : RoaringBitmap) (snap : IndexSnapshot R) where
  open R use {Bitmap, new, intersect, union, no_ids, len, iter}

  abbrev pub Keyed : Type 0
  Keyed = ℕ × Search R Bitmap

  -- `for child in iter`: the test for an empty set is the last step.
  unfoldable pub and_loop : Bitmap → List Keyed → Search R Bitmap
  and_loop acc [] = return R acc
  and_loop acc (child ∷ children) = and_then R child.1 (λ bitmap.
      let acc' = intersect acc bitmap in
      let later = and_loop acc' children in if no_ids acc' then return R acc' else later)

  unfoldable pub run_and : List Keyed → Search R Bitmap
  unfolding and_loop all_doc_ids
  run_and [] = return R (all_doc_ids R snap)
  run_and (first ∷ children) = and_then R first.1 (λ acc. and_loop acc children)

  -- `for hash in iter`: the test for an empty set is the first step.
  unfoldable pub grams_loop : Bitmap → List (ℕ × ℕ) → Search R Bitmap
  unfolding posting_bitmap_budgeted
  grams_loop acc [] = return R acc
  grams_loop acc (hash ∷ hashes) =
      let later =
        and_then R (posting_bitmap_budgeted R snap hash.1)
          (λ postings. grams_loop (intersect acc postings) hashes) in
      if no_ids acc then return R acc else later

  unfoldable pub run_grams : List (ℕ × ℕ) → Search R Bitmap
  unfolding grams_loop all_doc_ids posting_bitmap_budgeted
  run_grams [] = return R (all_doc_ids R snap)
  run_grams (first ∷ []) = posting_bitmap_budgeted R snap first.1
  run_grams (first ∷ second ∷ hashes) =
      and_then R (posting_bitmap_budgeted R snap first.1) (λ first_bm.
        and_then R (posting_bitmap_budgeted R snap second.1)
          (λ second_bm. grams_loop (intersect first_bm second_bm) hashes))

  -- Each hash with its key.
  unfoldable pub with_cardinality : List ℕ → List (ℕ × ℕ)
  unfolding gram_cardinality
  with_cardinality [] = []
  with_cardinality (hash ∷ hashes) = (gram_cardinality R snap hash, hash) ∷ with_cardinality hashes

  unfoldable mutual
    unfolding run_and run_grams sort_by_cached_key with_cardinality all_doc_ids
        query_cardinality_upper_bound

    pub execute_query_bitmap : GramQuery → Search R Bitmap
    execute_query_bitmap (GramQuery.and children) = run_and (sort_by_cached_key (keyed children))
    execute_query_bitmap (GramQuery.or children) = run_or new children
    execute_query_bitmap (GramQuery.grams hashes) =
        run_grams (sort_by_cached_key (with_cardinality hashes))
    execute_query_bitmap GramQuery.all = return R (all_doc_ids R snap)
    execute_query_bitmap GramQuery.none = return R new

    pub keyed : Queries → List Keyed
    keyed Queries.nil = []
    keyed (Queries.cons q qs) =
        (query_cardinality_upper_bound R snap q, execute_query_bitmap q) ∷ keyed qs

    pub run_or : Bitmap → Queries → Search R Bitmap
    run_or acc Queries.nil = return R acc
    run_or acc (Queries.cons q qs) =
        and_then R (execute_query_bitmap q) (λ bitmap. run_or (union acc bitmap) qs)

  unfoldable pub execute_query : GramQuery → PostingCache R → Outcome (List ℕ) × PostingCache R
  unfolding execute_query_bitmap
  execute_query query cache =
      let (result, s) =
        and_then R (execute_query_bitmap query) (λ bitmap. return R (iter bitmap))
          (record { cache = cache; remaining = max_query_posting_bytes }) in
      (result, s.cache)

  -- `candidate_count as f64 <= total_docs as f64 * threshold` is the parameter `selective`.
  module _ (selective : ℕ → ℕ → Bool) where
    abbrev pub enough : Bitmap → Bool
    enough acc = no_ids acc || selective (len acc) (len (all_doc_ids R snap))

    abbrev pub probe_third : Bitmap → List (ℕ × ℕ) → Search R Bool
    probe_third acc [] = return R false
    probe_third acc (third ∷ hashes) =
        and_then R (posting_bitmap R snap third.1)
          (λ third_bm. return R (enough (intersect acc third_bm)))

    unfoldable pub probe : List (ℕ × ℕ) → Search R Bool
    unfolding posting_bitmap all_doc_ids
    probe [] = return R false
    probe (first ∷ []) = return R (selective first.0 (len (all_doc_ids R snap)))
    probe (first ∷ second ∷ hashes) =
        let rest = and_then R (posting_bitmap R snap first.1) (λ first_bm.
          and_then R (posting_bitmap R snap second.1) (λ second_bm.
            let acc = intersect first_bm second_bm in
            let deeper = probe_third acc hashes in if enough acc then return R true else deeper)) in
        if selective first.0 (len (all_doc_ids R snap)) then return R true else rest

    unfoldable pub should_use_index : List ℕ → Search R Bool
    unfolding probe sort_by_cached_key with_cardinality all_doc_ids
    should_use_index hashes =
        if is_empty hashes
        then return R false
        else if len (all_doc_ids R snap) == 0
        then return R false
        else probe (sort_by_cached_key (with_cardinality hashes))
