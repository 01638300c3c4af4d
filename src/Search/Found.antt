-- ===== src/Search/Found.antt =====
-- The candidates that are verified.
use syntext.Prelude.{
  ℕ, ◌≡◌, refl, Bool, true, false, Option, none, some, List, [], ◌∷◌, ◌++◌, contains, if◌then◌else◌,
  is_empty, arith,
}
use syntext.Tokenizer.Boundaries.{Tables, lowercase}
use syntext.Tokenizer.Covering.{CoveringSet, build_covering}
use syntext.Tokenizer.Required.{build_covering-required}
use syntext.Index.Bitmap.{RoaringBitmap}
use syntext.Index.PostingCache.{PostingCache}
use syntext.Index.Snapshot.{IndexSnapshot, all_doc_ids}
use syntext.Query.GramQuery.{GramQuery, holds}
use syntext.Query.Hir.{Hir, HirSemantics}
use syntext.Query.Route.{
  QueryRoute, RouteResult, literal, indexed_regex, full_scan, route_query, is_literal,
}
use syntext.Query.Sound.{has_gram, has_all_of_indexed}
use syntext.Query.RouteSound.{PatternMatches, AsciiCase, literal-lowercase, route_query-holds}
use syntext.Search.Postings.{Outcome, ok, err, stuck, query_too_broad, corrupt_index}
use syntext.Search.Execute.{execute_query}
use syntext.Search.Meaning.{live, selects}
use syntext.Search.Computes.{Coherent}
use syntext.Search.Answers.{Answers, execute_query-Answers, holds-selects}
use syntext.Search.Complete.{Indexed}
use syntext.Search.Candidates.{
  use_index, all_ids, literal_candidates, or_all_ids, run_indexed, probe_query, candidates,
  then_with,
}
use syntext.Prelude.{◌≢◌}
use syntext.Query.Route.{route_gram_query, route_hir}
use syntext.Query.GramQuery.{simplify}
use syntext.Query.Decompose.{walk}
use syntext.Search.Probing.{Ends, Any, use_index-Ends}

module _ (R : RoaringBitmap) (snap : IndexSnapshot R) (selective : ℕ → ℕ → Bool) (d : ℕ) where
  open R use {contains-iter}

  abbrev pub Finds : Outcome (List ℕ) × PostingCache R → Type 0
  Finds r = Ends R snap (λ ids. contains d ids ≡ true) r.0 × Coherent R snap r.1

  then_with-Finds :
      {A : Type 0} (P : A → Type 0) (r : Outcome A × PostingCache R)
      (f : A → PostingCache R → Outcome (List ℕ) × PostingCache R)
      → Ends R snap P r.0 × Coherent R snap r.1
      → ((a : A) (c : PostingCache R) → P a → Coherent R snap c → Finds (f a c))
      → Finds (then_with R snap selective r f)
  then_with-Finds P (ok a, c) f (p, h) next = next a c p h
  then_with-Finds P (err (query_too_broad limit), c) f y next = y
  then_with-Finds P (err (corrupt_index x), c) f y next = y
  then_with-Finds P (stuck, c) f y next = y

  Answers-Finds :
      (q : GramQuery) (r : Outcome (List ℕ) × PostingCache R)
      → selects R snap q d ≡ true
      → Answers R snap q r.0 × Coherent R snap r.1
      → Finds r
  Answers-Finds q (ok ids, c) s (a, h) = (rw (a d) s, h)
  Answers-Finds q (err (query_too_broad limit), c) s y = y
  Answers-Finds q (err (corrupt_index x), c) s y = y
  Answers-Finds q (stuck, c) s y = y

  execute_query-Finds :
      (q : GramQuery) (c : PostingCache R)
      → selects R snap q d ≡ true
      → Coherent R snap c
      → Finds (execute_query R snap q c)
  execute_query-Finds q c s h =
      Answers-Finds q (execute_query R snap q c) s (execute_query-Answers R snap q c h)

  all_ids-live : live R snap d ≡ true → contains d (all_ids R snap selective) ≡ true
  unfolding all_ids live
  all_ids-live l = rw (contains-iter (all_doc_ids R snap) d) l

  or_all_ids-kept :
      (ids : List ℕ) → contains d ids ≡ true → contains d (or_all_ids R snap selective ids) ≡ true
  unfolding or_all_ids contains
  or_all_ids-kept [] h = cc
  or_all_ids-kept (id ∷ ids) h = h

  run_indexed-Finds :
      (q : GramQuery) (b : Bool) (c : PostingCache R)
      → live R snap d ≡ true
      → selects R snap q d ≡ true
      → Coherent R snap c
      → Finds (run_indexed R snap selective q b c)
  unfolding run_indexed
  run_indexed-Finds q false c l s h = (all_ids-live l, h)
  run_indexed-Finds q true c l s h =
      then_with-Finds (λ ids. contains d ids ≡ true) (execute_query R snap q c)
        (λ indexed c'. (ok (or_all_ids R snap selective indexed), c')) (execute_query-Finds q c s h)
        (λ ids c' k h'. (or_all_ids-kept ids k, h'))

  probe_query-Ends :
      (q : GramQuery) (c : PostingCache R)
      → Coherent R snap c
      → Ends R snap (Any R snap) (probe_query R snap selective q c).0
        × Coherent R snap (probe_query R snap selective q c).1
  unfolding probe_query
  probe_query-Ends (GramQuery.grams []) c h = (tt, h)
  probe_query-Ends (GramQuery.grams (g ∷ gs)) c h = use_index-Ends R snap selective (g ∷ gs) c h
  probe_query-Ends (GramQuery.and qs) c h = (tt, h)
  probe_query-Ends (GramQuery.or qs) c h = (tt, h)
  probe_query-Ends GramQuery.all c h = (tt, h)
  probe_query-Ends GramQuery.none c h = (tt, h)

  if-Finds :
      (b : Bool) (x y : Outcome (List ℕ) × PostingCache R)
      → Finds x
      → Finds y
      → Finds (if b then x else y)
  if-Finds true x y p q = p
  if-Finds false x y p q = q

  literal_candidates-Finds :
      (o : Option CoveringSet) (c : PostingCache R)
      → live R snap d ≡ true
      → ((covering : CoveringSet)
          → o ≡ some covering
          → selects R snap (GramQuery.grams covering.required) d ≡ true)
      → Coherent R snap c
      → Finds (literal_candidates R snap selective o c)
  unfolding literal_candidates
  literal_candidates-Finds none c l s h = (all_ids-live l, h)
  literal_candidates-Finds (some covering) c l s h =
      if-Finds (is_empty covering.required) _ _ (all_ids-live l, h)
        (then_with-Finds (Any R snap) (use_index R snap selective covering.required c)
          (λ indexed c'.
            if indexed
            then execute_query R snap (GramQuery.grams covering.required) c'
            else (ok (all_ids R snap selective), c'))
          (use_index-Ends R snap selective covering.required c h)
          (λ indexed c' u h'.
            if-Finds indexed _ _
              (execute_query-Finds (GramQuery.grams covering.required) c' (s covering refl) h')
              (all_ids-live l, h')))

module _ (R : RoaringBitmap) (snap : IndexSnapshot R) (selective : ℕ → ℕ → Bool) (t : Tables)
    (parse : List ℕ → Bool → Option Hir) (m : HirSemantics) where
  route_gram_query-ne-literal : (q : GramQuery) → route_gram_query q ≢ literal
  unfolding route_gram_query
  route_gram_query-ne-literal (GramQuery.and qs) r = cc
  route_gram_query-ne-literal (GramQuery.or qs) r = cc
  route_gram_query-ne-literal (GramQuery.grams hs) r = cc
  route_gram_query-ne-literal GramQuery.all r = cc
  route_gram_query-ne-literal GramQuery.none r = cc

  route_hir-ne-literal : (o : Option Hir) → route_hir t parse o ≢ RouteResult.ok literal
  unfolding route_hir
  route_hir-ne-literal none r = cc
  route_hir-ne-literal (some h) r =
      ground (arith, route_gram_query-ne-literal (simplify (walk t h)))

  literal-routed :
      (pattern : List ℕ) (ci : Bool)
      → route_query t parse pattern ci ≡ RouteResult.ok literal
      → is_literal pattern ≡ true
  unfolding route_query
  literal-routed pattern ci r = ground (arith, route_hir-ne-literal (parse pattern ci))

  -- With a cache whose bitmaps are right, on each route: a document that is live, is posted under the
  -- grams of its text and holds a match of the pattern is among the candidates that are verified,
  -- provided that a match of a case-insensitive pattern with no metacharacter differs from it at most
  -- in the case of ASCII letters; or the search is refused as too broad, with the posting budget as its limit, or reports a posting list of the
  -- index that does not decode. The cache stays right.
  pub candidates-Finds :
      (pattern : List ℕ) (ci : Bool) (route : QueryRoute) (c : PostingCache R) (d : ℕ)
      (before hit after : List ℕ)
      → route_query t parse pattern ci ≡ RouteResult.ok route
      → Coherent R snap c
      → Indexed R snap t d (before ++ (hit ++ after))
      → PatternMatches t parse m pattern ci before hit after
      → AsciiCase t parse m pattern ci hit
      → Finds R snap selective d (candidates R snap selective t pattern route c)
  unfolding candidates
  candidates-Finds pattern ci literal c d before hit after r h (l, i) hits ascii =
      let same : lowercase hit ≡ lowercase pattern =
        literal-lowercase t parse m pattern ci before hit after hits ascii
          (literal-routed pattern ci r) in
      literal_candidates-Finds R snap selective d (build_covering t pattern) c l
        (λ covering e.
          holds-selects R snap (has_gram t (before ++ (hit ++ after))) d l i
            (GramQuery.grams covering.required)
            (unfold holds in
              has_all_of_indexed t (before ++ (hit ++ after)) covering.required
                (build_covering-required t pattern covering before hit after e same)))
        h
  candidates-Finds pattern ci (indexed_regex q) c d before hit after r h (l, i) hits ascii =
      let chosen : selects R snap q d ≡ true =
        holds-selects R snap (has_gram t (before ++ (hit ++ after))) d l i q
          (route_query-holds t parse m pattern ci before hit after q r hits ascii) in
      then_with-Finds R snap selective d (Any R snap) (probe_query R snap selective q c)
        (λ is_selective c'. run_indexed R snap selective q is_selective c')
        (probe_query-Ends R snap selective d q c h)
        (λ b c' u h'. run_indexed-Finds R snap selective d q b c' l chosen h')
  candidates-Finds pattern ci full_scan c d before hit after r h (l, i) hits ascii =
      (all_ids-live R snap selective d l, h)
