-- ===== src/Tests/Query.antt =====
-- Runs of the query planner, and its theorems at concrete inputs.
use syntext.Prelude.{◌≡◌, refl, true, some, [], ◌∷◌, ◌++◌, Memᴰ, arith, ◌==◌, inl, inr}
use syntext.Tokenizer.Boundaries.{is_forced_boundary, to_ascii_lowercase}
use syntext.Tokenizer.Grams.{gram_hash}
use syntext.Tokenizer.Covering.{build_covering, build_covering_inner}
use syntext.Query.GramQuery.{GramQuery, Queries, simplify, and_of, without_all, holds}
use syntext.Query.Hir.{Hir, Hirs}
use syntext.Query.Decompose.{concat_variants, walk, exact_literal_variants}
use syntext.Query.Route.{ok, indexed_regex, route_query, is_literal}
use syntext.Query.Simplify.{holds-simplify, is_reduced, simplify-reduced}
use syntext.Query.Exact.{variants-mem}
use syntext.Query.Sound.{has_gram, holds-walk}
use syntext.Query.RouteSound.{route_query-holds}
use syntext.Tests.Toy.{
  bytes, toy, toy_hash, toy_semantics, parse_classes, class_each, class_each-meaning,
}

-- `(foo)?.needle.`: the optional group gives no constraint.
abbrev optional_needle : Hir
optional_needle = Hir.concat (
    Hirs.cons (Hir.repetition 0 (some 1) (Hir.capture (Hir.literal (bytes "foo"))))
      (Hirs.cons (Hir.literal (bytes ".needle.")) Hirs.nil))

abbrev needle_query : GramQuery
needle_query = GramQuery.grams (toy_hash (bytes "needle") 0 ∷ [])

simplify_run : simplify (walk toy optional_needle) ≡ needle_query
unfolding simplify and_of without_all walk exact_literal_variants build_covering_inner
    to_ascii_lowercase gram_hash is_forced_boundary
simplify_run = refl

-- `(ab|c)d`
abbrev branches : Hir
branches = Hir.concat (
    Hirs.cons
      (Hir.alternation
        (Hirs.cons (Hir.literal (bytes "ab")) (Hirs.cons (Hir.literal (bytes "c")) Hirs.nil)))
      (Hirs.cons (Hir.literal (bytes "d")) Hirs.nil))

variants_run : exact_literal_variants branches 16 ≡ some (bytes "abd" ∷ bytes "cd" ∷ [])
unfolding exact_literal_variants concat_variants
variants_run = refl

variants-mem_example : Memᴰ (bytes "cd") (bytes "abd" ∷ bytes "cd" ∷ [])
unfolding toy_semantics
variants-mem_example =
    variants-mem toy_semantics 16 branches (bytes "x") (bytes "cd") (bytes "y")
      (bytes "abd" ∷ bytes "cd" ∷ [])
      (bytes "c", bytes "d", refl, inr (inl refl), (bytes "d", [], refl, refl, refl)) variants_run

holds-walk_example :
    holds (has_gram toy (bytes "(a" ++ (bytes ".needle." ++ bytes "b)"))) (walk toy optional_needle)
    ≡ true
unfolding toy_semantics
holds-walk_example =
    holds-walk toy toy_semantics optional_needle (bytes "(a") (bytes ".needle.") (bytes "b)") (
      [],
      bytes ".needle.",
      refl,
      (0, omega arith, omega arith, refl),
      (bytes ".needle.", [], refl, refl, refl),
    )

abbrev foo_query : GramQuery
foo_query = GramQuery.grams (toy_hash (bytes "foo") 0 ∷ [])

route_run : route_query toy parse_classes (bytes " Foo ") true ≡ ok (indexed_regex foo_query)
unfolding route_query is_literal build_covering to_ascii_lowercase gram_hash is_forced_boundary
route_run = refl

route_query-holds_example :
    holds (has_gram toy (bytes "a" ++ (bytes " fOO " ++ bytes "b"))) foo_query ≡ true
unfolding is_literal to_ascii_lowercase toy_semantics
route_query-holds_example =
    route_query-holds toy parse_classes toy_semantics (bytes " Foo ") true (bytes "a")
      (bytes " fOO ") (bytes "b") foo_query route_run
      (
        λ h. cc,
        λ _. (
          Hir.concat (class_each (bytes " Foo ")),
          refl,
          class_each-meaning (bytes "a") (bytes " fOO ") (bytes "b"),
        ),
      )
      (λ _. refl)

holds-simplify_example :
    holds (λ g. g == 7) (simplify (GramQuery.or (Queries.cons GramQuery.all Queries.nil)))
    ≡ holds (λ g. g == 7) (GramQuery.or (Queries.cons GramQuery.all Queries.nil))
holds-simplify_example =
    holds-simplify (λ g. g == 7) (GramQuery.or (Queries.cons GramQuery.all Queries.nil))

simplify-reduced_example : is_reduced (simplify (walk toy optional_needle)) ≡ true
simplify-reduced_example = simplify-reduced (walk toy optional_needle)
