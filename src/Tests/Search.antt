-- ===== src/Tests/Search.antt =====
-- Runs of the executor on a small snapshot, and its theorems at concrete inputs.
use syntext.Prelude.{
  ◌||◌, ℕ, ◌≡◌, refl, Bool, true, false, none, some, [], ◌∷◌, contains, ◌==◌, if◌then◌else◌, arith,
}
use syntext.Tokenizer.Boundaries.{is_forced_boundary, to_ascii_lowercase}
use syntext.Tokenizer.Grams.{gram_hash, build_all}
use syntext.Tokenizer.Covering.{build_covering}
use syntext.Posting.Varint.{varint_decode, read_varint}
use syntext.Index.PostingCache.{empty_cache, find_entry}
use syntext.Index.Snapshot.{small, Segment, IndexSnapshot, to_vec, all_doc_ids}
use syntext.Query.GramQuery.{GramQuery, Queries}
use syntext.Query.Hir.{Hir}
use syntext.Query.Route.{ok, indexed_regex, route_query, is_literal}
use syntext.Query.Sound.{has_gram}
use syntext.Search.Postings.{Outcome}
use syntext.Search.Execute.{execute_query}
use syntext.Search.Meaning.{live, posted}
use syntext.Search.Answers.{Answers, execute_query-Answers}
use syntext.Search.Complete.{Indexed, execute_query_complete}
use syntext.Search.Computes.{Coherent}
use syntext.Prelude.{leb, ◌*◌}
use syntext.Search.Candidates.{candidates}
use syntext.Search.Found.{Finds, candidates-Finds}
use syntext.Query.Route.{literal}
use syntext.Tests.Toy.{
  bytes, toy, toy_hash, toy_semantics, parse_classes, class_each, class_each-meaning,
}
use syntext.Tests.ToyBitmap.{toy_bitmap}

abbrev foo_hash : ℕ
foo_hash = toy_hash (bytes "foo") 0

-- Docs 0 to 2 in a segment, 2 deleted, and 3 in the overlay.
abbrev segment : Segment toy_bitmap
segment = record {
  lookup_gram = λ g. if g == foo_hash then some (small (0 ∷ 2 ∷ [])) else none;
  gram_cardinality = λ g. if g == foo_hash then some 2 else none;
  doc_count = 3;
}

abbrev snapshot : IndexSnapshot toy_bitmap
unfolding toy_bitmap
snapshot = record {
  segments = segment ∷ [];
  base_ids = 0 ∷ [];
  overlay_grams = λ g. if g == foo_hash then some (3 ∷ []) else none;
  overlay_doc_ids = 3 ∷ [];
  delete_set = 2 ∷ [];
}

abbrev foo_query : GramQuery
foo_query = GramQuery.grams (foo_hash ∷ [])

abbrev both : GramQuery
both = GramQuery.and (Queries.cons GramQuery.all (Queries.cons foo_query Queries.nil))

foo_run :
    (execute_query toy_bitmap snapshot foo_query (empty_cache toy_bitmap)).0
    ≡ Outcome.ok (0 ∷ 3 ∷ [])
unfolding execute_query empty_cache toy_bitmap to_vec varint_decode find_entry read_varint
foo_run = refl

execute_query-Answers_example :
    Answers toy_bitmap snapshot both
      (execute_query toy_bitmap snapshot both (empty_cache toy_bitmap)).0
    × Coherent toy_bitmap snapshot
        (execute_query toy_bitmap snapshot both (empty_cache toy_bitmap)).1
unfolding empty_cache
execute_query-Answers_example =
    execute_query-Answers toy_bitmap snapshot both (empty_cache toy_bitmap) tt

route_run : route_query toy parse_classes (bytes " Foo ") true ≡ ok (indexed_regex foo_query)
unfolding route_query is_literal build_covering to_ascii_lowercase gram_hash is_forced_boundary
route_run = refl

live_run : live toy_bitmap snapshot 0 ≡ true
unfolding live all_doc_ids toy_bitmap
live_run = refl

foo_posted : posted toy_bitmap snapshot foo_hash 0 ≡ true
unfolding posted toy_bitmap to_vec varint_decode read_varint
foo_posted = refl

foo_grams : (g : ℕ) → has_gram toy (bytes " foo ") g ≡ (foo_hash == g || false)
unfolding has_gram gram_hash to_ascii_lowercase is_forced_boundary build_all
foo_grams g = refl

foo-Indexed : Indexed toy_bitmap snapshot toy 0 (bytes " foo ")
foo-Indexed = (
  live_run,
  λ g h. let same : foo_hash ≡ g = ground (arith, foo_grams g) in rw (← same) foo_posted,
)

execute_query_complete_example : contains 0 (0 ∷ 3 ∷ []) ≡ true
unfolding is_literal to_ascii_lowercase empty_cache toy_semantics
execute_query_complete_example =
    execute_query_complete toy_bitmap snapshot toy parse_classes toy_semantics (bytes " Foo ") true
      foo_query (empty_cache toy_bitmap) (0 ∷ 3 ∷ []) 0 [] (bytes " foo ") [] route_run tt foo_run
      foo-Indexed
      (
        λ h. cc,
        λ _. (
          Hir.concat (class_each (bytes " Foo ")),
          refl,
          class_each-meaning [] (bytes " foo ") [],
        ),
      )
      (λ _. refl)

abbrev half : ℕ → ℕ → Bool
half count docs = leb (2 * count) docs

literal_run : route_query toy parse_classes (bytes " foo ") false ≡ ok literal
unfolding route_query is_literal
literal_run = refl

candidates-Finds_example :
    Finds toy_bitmap snapshot half 0
      (candidates toy_bitmap snapshot half toy (bytes " foo ") literal (empty_cache toy_bitmap))
unfolding is_literal to_ascii_lowercase empty_cache
candidates-Finds_example =
    candidates-Finds toy_bitmap snapshot half toy parse_classes toy_semantics (bytes " foo ") false
      literal (empty_cache toy_bitmap) 0 [] (bytes " foo ") [] literal_run tt foo-Indexed
      (λ _. refl, λ h. cc) (λ h. cc)
