-- ===== src/Search/Exact.antt =====
-- `execute_query_bitmap` yields the documents that its query selects.
use syntext.Prelude.{
  ℕ, ◌≡◌, refl, Bool, true, false, ◌&&◌, ◌||◌, inl, inr, List, [], ◌∷◌, leb, Bool-cases, arith,
}
use syntext.Index.Bitmap.{RoaringBitmap}
use syntext.Index.Snapshot.{IndexSnapshot, all_doc_ids}
use syntext.Query.GramQuery.{GramQuery, Queries}
use syntext.Search.Postings.{posting_bitmap_budgeted}
use syntext.Search.Cardinality.{gram_cardinality, insert_by_key, sort_by_cached_key}
use syntext.Search.Execute.{
  run_and, grams_loop, run_grams, with_cardinality, execute_query_bitmap, keyed, run_or,
}
use syntext.Search.Meaning.{live, posted, posted_all, selects, all_select, any_selects}
use syntext.Search.Computes.{Computes, Computes-ext, Computes-return, Computes-and_then}
use syntext.Search.Posted.{Computes-posting_bitmap_budgeted}
use syntext.Search.Conjunction.{Conj, insert_by_key-cons, sorted_and-Computes}

module _ (R : RoaringBitmap) (snap : IndexSnapshot R) where
  open R use {
    Bitmap, new, intersect, union, no_ids, has, has-intersect, has-union, has-new, no_ids_has,
    contains-iter,
  }

  -- What all the hashes of a sorted list are posted for.
  unfoldable posted_keyed : List (ℕ × ℕ) → ℕ → Bool
  posted_keyed [] d = true
  posted_keyed (x ∷ xs) d = posted R snap x.1 d && posted_keyed xs d

  insert-posted :
      (x : ℕ × ℕ) (xs : List (ℕ × ℕ)) (d : ℕ)
      → posted_keyed (insert_by_key x xs) d ≡ (posted R snap x.1 d && posted_keyed xs d)
  unfolding insert_by_key posted_keyed
  insert-posted x [] d = refl
  insert-posted x (y ∷ ys) d = elim (Bool-cases (leb x.0 y.0)) [
    | inl le ↦ rw le refl
    | inr gt ↦ rw gt (ground (arith, insert-posted x ys d))
  ]

  sort-posted :
      (hashes : List ℕ) (d : ℕ)
      → posted_keyed (sort_by_cached_key (with_cardinality R snap hashes)) d
        ≡ posted_all R snap hashes d
  unfolding sort_by_cached_key with_cardinality posted_all posted_keyed
  sort-posted [] d = refl
  sort-posted (g ∷ gs) d =
      rw (insert-posted _ (sort_by_cached_key (with_cardinality R snap gs)) d, sort-posted gs d)
        refl

  grams_loop-Computes :
      (acc : Bitmap) (xs : List (ℕ × ℕ)) (a : ℕ → Bool)
      → ((d : ℕ) → has acc d ≡ a d)
      → Computes R snap (grams_loop R snap acc xs) (λ d. a d && posted_keyed xs d)
  unfolding grams_loop posted_keyed
  grams_loop-Computes acc [] a e s coh = (λ d. ground (arith, e d), coh)
  grams_loop-Computes acc (x ∷ xs) a e s coh = elim (Bool-cases (no_ids acc)) [
    | inl none_left ↦ rw none_left (λ d. ground (arith, no_ids_has acc d none_left, e d), coh)
    | inr some_left ↦ rw some_left (
        Computes-and_then R snap (posting_bitmap_budgeted R snap x.1) (posted R snap x.1)
          (λ d. a d && (posted R snap x.1 d && posted_keyed xs d))
          (λ b. grams_loop R snap (intersect acc b) xs)
          (Computes-posting_bitmap_budgeted R snap x.1)
          (λ b eb.
            Computes-ext R snap (grams_loop R snap (intersect acc b) xs)
              (grams_loop-Computes (intersect acc b) xs (λ d. a d && posted R snap x.1 d)
                (λ d. rw (has-intersect acc b d, e d, eb d) refl))
              (λ d. ground arith))
          s coh)
  ]

  run_grams-Computes :
      (x : ℕ × ℕ) (xs : List (ℕ × ℕ))
      → Computes R snap (run_grams R snap (x ∷ xs)) (posted_keyed (x ∷ xs))
  unfolding run_grams posted_keyed
  run_grams-Computes x [] =
      Computes-ext R snap (posting_bitmap_budgeted R snap x.1)
        (Computes-posting_bitmap_budgeted R snap x.1) (λ d. ground arith)
  run_grams-Computes x (y ∷ ys) =
      Computes-and_then R snap (posting_bitmap_budgeted R snap x.1) (posted R snap x.1) _ _
        (Computes-posting_bitmap_budgeted R snap x.1)
        (λ b eb.
          Computes-and_then R snap (posting_bitmap_budgeted R snap y.1) (posted R snap y.1) _ _
            (Computes-posting_bitmap_budgeted R snap y.1)
            (λ c ec.
              Computes-ext R snap (grams_loop R snap (intersect b c) ys)
                (grams_loop-Computes (intersect b c) ys
                  (λ d. posted R snap x.1 d && posted R snap y.1 d)
                  (λ d. rw (has-intersect b c d, eb d, ec d) refl))
                (λ d. ground arith)))

  sorted_grams-Computes :
      (g : ℕ) (gs : List ℕ)
      → Computes R snap
          (run_grams R snap (sort_by_cached_key (with_cardinality R snap (g ∷ gs))))
          (posted_all R snap (g ∷ gs))
  unfolding sort_by_cached_key with_cardinality
  sorted_grams-Computes g gs =
      let sorted : (d : ℕ)
          → posted_keyed (sort_by_cached_key (with_cardinality R snap (g ∷ gs))) d
            ≡ posted_all R snap (g ∷ gs) d =
        sort-posted (g ∷ gs) in
      let (y, ys, e) =
        insert_by_key-cons (gram_cardinality R snap g, g)
          (sort_by_cached_key (with_cardinality R snap gs)) in
      rw e
        (Computes-ext R snap (run_grams R snap (y ∷ ys)) (run_grams-Computes y ys) (rw e at sorted))

  mutual
    unfolding execute_query_bitmap keyed run_or selects all_select any_selects live run_and
        run_grams

    pub execute-Computes :
        (q : GramQuery) → Computes R snap (execute_query_bitmap R snap q) (selects R snap q)
    execute-Computes (GramQuery.and Queries.nil) =
        Computes-return R snap (all_doc_ids R snap) _ (λ d. refl)
    execute-Computes (GramQuery.and (Queries.cons q qs)) =
        sorted_and-Computes R snap _ (keyed R snap qs)
          (λ d. selects R snap q d && all_select R snap qs d)
          (selects R snap q, all_select R snap qs, execute-Computes q, keyed-Conj qs, λ d. refl)
    execute-Computes (GramQuery.or qs) =
        Computes-ext R snap (run_or R snap new qs) (run_or-Computes new qs (λ d. false) has-new)
          (λ d. refl)
    execute-Computes (GramQuery.grams []) =
        Computes-return R snap (all_doc_ids R snap) _ (λ d. refl)
    execute-Computes (GramQuery.grams (g ∷ gs)) = sorted_grams-Computes g gs
    execute-Computes GramQuery.all = Computes-return R snap (all_doc_ids R snap) _ (λ d. refl)
    execute-Computes GramQuery.none = Computes-return R snap new _ has-new

    keyed-Conj : (qs : Queries) → Conj R snap (keyed R snap qs) (all_select R snap qs)
    keyed-Conj Queries.nil = λ d. refl
    keyed-Conj (Queries.cons q qs) =
        (selects R snap q, all_select R snap qs, execute-Computes q, keyed-Conj qs, λ d. refl)

    run_or-Computes :
        (acc : Bitmap) (qs : Queries) (a : ℕ → Bool)
        → ((d : ℕ) → has acc d ≡ a d)
        → Computes R snap (run_or R snap acc qs) (λ d. a d || any_selects R snap qs d)
    run_or-Computes acc Queries.nil a e = Computes-return R snap acc _ (λ d. ground (arith, e d))
    run_or-Computes acc (Queries.cons q qs) a e =
        Computes-and_then R snap (execute_query_bitmap R snap q) (selects R snap q) _ _
          (execute-Computes q)
          (λ b eb.
            Computes-ext R snap (run_or R snap (union acc b) qs)
              (run_or-Computes (union acc b) qs (λ d. a d || selects R snap q d)
                (λ d. rw (has-union acc b d, e d, eb d) refl))
              (λ d. ground arith))
