-- ===== src/Search/Candidates.antt =====
-- src/search/mod.rs: the choice of candidates in `search_with_content`, for the route of a pattern.
use syntext.Prelude.{
  ℕ, Bool, true, false, Option, none, some, List, [], ◌∷◌, if◌then◌else◌, is_empty,
}
use syntext.Tokenizer.Boundaries.{Tables}
use syntext.Tokenizer.Covering.{CoveringSet, build_covering}
use syntext.Index.Bitmap.{RoaringBitmap}
use syntext.Index.PostingCache.{PostingCache}
use syntext.Index.Snapshot.{IndexSnapshot, all_doc_ids}
use syntext.Query.GramQuery.{GramQuery}
use syntext.Query.Route.{QueryRoute, literal, indexed_regex, full_scan}
use syntext.Search.Postings.{Outcome, ok, err, stuck}
use syntext.Search.Execute.{should_use_index, execute_query}

module _ (R : RoaringBitmap) (snap : IndexSnapshot R) (selective : ℕ → ℕ → Bool) where
  open R use {iter}

  -- A step on the cache of the snapshot.
  abbrev pub Cached : Type 0 → Type 0
  Cached A = PostingCache R → Outcome A × PostingCache R

  abbrev pub then_with :
      {A B : Type 0} → Outcome A × PostingCache R → (A → Cached B) → Outcome B × PostingCache R
  then_with (ok a, c) f = f a c
  then_with (err e, c) f = (err e, c)
  then_with (stuck, c) f = (stuck, c)

  -- `should_use_index` charges nothing: the bytes left do not matter.
  unfoldable pub use_index : List ℕ → Cached Bool
  unfolding should_use_index
  use_index hashes c =
      let (o, s) = should_use_index R snap selective hashes (record { cache = c; remaining = 0 }) in
      (o, s.cache)

  unfoldable pub all_ids : List ℕ
  unfolding all_doc_ids
  all_ids = iter (all_doc_ids R snap)

  unfoldable pub literal_candidates : Option CoveringSet → Cached (List ℕ)
  unfolding use_index all_ids execute_query
  literal_candidates none c = (ok all_ids, c)
  literal_candidates (some covering) c =
      if is_empty covering.required
      then (ok all_ids, c)
      else then_with (use_index covering.required c) (λ indexed c'.
        if indexed
        then execute_query R snap (GramQuery.grams covering.required) c'
        else (ok all_ids, c'))

  -- `if indexed.is_empty() { all_doc_ids } else { indexed }`
  unfoldable pub or_all_ids : List ℕ → List ℕ
  unfolding all_ids
  or_all_ids [] = all_ids
  or_all_ids (id ∷ ids) = id ∷ ids

  unfoldable pub run_indexed : GramQuery → Bool → Cached (List ℕ)
  unfolding execute_query or_all_ids all_ids
  run_indexed query false c = (ok all_ids, c)
  run_indexed query true c =
      then_with (execute_query R snap query c) (λ indexed c'. (ok (or_all_ids indexed), c'))

  unfoldable pub probe_query : GramQuery → Cached Bool
  unfolding use_index
  probe_query (GramQuery.grams []) c = (ok true, c)
  probe_query (GramQuery.grams (g ∷ gs)) c = use_index (g ∷ gs) c
  probe_query (GramQuery.and qs) c = (ok true, c)
  probe_query (GramQuery.or qs) c = (ok true, c)
  probe_query GramQuery.all c = (ok true, c)
  probe_query GramQuery.none c = (ok true, c)

  unfoldable pub candidates : Tables → List ℕ → QueryRoute → Cached (List ℕ)
  unfolding literal_candidates build_covering probe_query run_indexed all_ids
  candidates t pattern literal c = literal_candidates (build_covering t pattern) c
  candidates t pattern (indexed_regex query) c =
      then_with (probe_query query c) (λ is_selective c'. run_indexed query is_selective c')
  candidates t pattern full_scan c = (ok all_ids, c)
