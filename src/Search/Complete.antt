-- ===== src/Search/Complete.antt =====
-- From a pattern to the ids of a search: the planner of src/query and the executor of
-- src/search/executor.rs put together.
use syntext.Prelude.{ℕ, ◌≡◌, Bool, true, List, ◌++◌, contains, Option}
use syntext.Tokenizer.Boundaries.{Tables}
use syntext.Index.Bitmap.{RoaringBitmap}
use syntext.Index.PostingCache.{PostingCache}
use syntext.Index.Snapshot.{IndexSnapshot}
use syntext.Query.GramQuery.{GramQuery}
use syntext.Query.Hir.{Hir, HirSemantics}
use syntext.Query.Route.{ok, indexed_regex, route_query}
use syntext.Query.Sound.{has_gram}
use syntext.Query.RouteSound.{PatternMatches, AsciiCase, route_query-holds}
use syntext.Search.Postings.{Outcome}
use syntext.Search.Execute.{execute_query}
use syntext.Search.Meaning.{live, posted, selects}
use syntext.Search.Computes.{Coherent}
use syntext.Search.Answers.{Answers, execute_query-Answers, holds-selects}

module _ (R : RoaringBitmap) (snap : IndexSnapshot R) (t : Tables) where
  -- The document is live, and posted under each gram of its text.
  abbrev pub Indexed : ℕ → List ℕ → Type 0
  Indexed d text =
      (live R snap d ≡ true) × ((g : ℕ) → has_gram t text g ≡ true → posted R snap g d ≡ true)

  answered :
      (q : GramQuery) (o : Outcome (List ℕ)) (ids : List ℕ) (d : ℕ)
      → o ≡ Outcome.ok ids
      → Answers R snap q o
      → selects R snap q d ≡ true
      → contains d ids ≡ true
  answered q o ids d e a s =
      let exact : Answers R snap q (Outcome.ok ids) = rw e at a in rw (exact d) s

  -- Where a pattern is routed to an indexed search and the search, with a cache whose bitmaps are
  -- right, answers, the answer has each live document that holds a match of the pattern and is posted
  -- under the grams of its text, provided that a match of a case-insensitive pattern with no
  -- metacharacter differs from it at most in the case of ASCII letters.
  pub execute_query_complete :
      (parse : List ℕ → Bool → Option Hir) (m : HirSemantics) (pattern : List ℕ) (ci : Bool)
      (q : GramQuery) (c : PostingCache R) (ids : List ℕ) (d : ℕ) (before hit after : List ℕ)
      → route_query t parse pattern ci ≡ ok (indexed_regex q)
      → Coherent R snap c
      → (execute_query R snap q c).0 ≡ Outcome.ok ids
      → Indexed d (before ++ (hit ++ after))
      → PatternMatches t parse m pattern ci before hit after
      → AsciiCase t parse m pattern ci hit
      → contains d ids ≡ true
  execute_query_complete parse m pattern ci q c ids d before hit after routed h e (l, i) hits
        ascii =
      answered q (execute_query R snap q c).0 ids d e (execute_query-Answers R snap q c h).0 (
        holds-selects R snap (has_gram t (before ++ (hit ++ after))) d l i q
          (route_query-holds t parse m pattern ci before hit after q routed hits ascii))
