-- ===== src/Tests/Tokenizer.antt =====
-- Runs of the tokenizer, and its theorems at concrete inputs.
use syntext.Prelude.{◌≡◌, refl, none, some, [], ◌∷◌, ◌++◌, All}
use syntext.Tokenizer.Boundaries.{
  lowercase, boundary_positions, boundary_positions_lower, to_ascii_lowercase, is_forced_boundary,
  camel_case_boundaries,
}
use syntext.Tokenizer.Grams.{build_all, gram_hash, merge_boundaries}
use syntext.Tokenizer.Covering.{build_covering, build_covering_inner, CoveringSet}
use syntext.Tokenizer.Required.{IndexedIn, build_covering-required, build_covering_inner-indexed}
use syntext.Tokenizer.Camel.{merged-boundaries}
use syntext.Tests.Toy.{bytes, toy, toy_hash}

boundaries_run : boundary_positions toy (bytes "parseQuery(x)") ≡ 0 ∷ 5 ∷ 10 ∷ 11 ∷ 12 ∷ 13 ∷ []
unfolding boundary_positions to_ascii_lowercase is_forced_boundary
boundaries_run = refl

build_all_run :
    build_all toy (bytes "parseQuery")
    ≡ toy_hash (bytes "parsequery") 0 ∷ toy_hash (bytes "parse") 0 ∷ toy_hash (bytes "query") 0 ∷ []
unfolding build_all to_ascii_lowercase gram_hash is_forced_boundary
build_all_run = refl

covering_run :
    build_covering toy (bytes "parse_query")
    ≡ some (record {
      required = [];
      optional = toy_hash (bytes "parse") 0 ∷ toy_hash (bytes "query") 0 ∷ [];
    })
unfolding build_covering to_ascii_lowercase gram_hash is_forced_boundary
covering_run = refl

short_run : build_covering toy (bytes "ab") ≡ none
unfolding build_covering to_ascii_lowercase gram_hash is_forced_boundary
short_run = refl

abbrev foo_covering : CoveringSet
foo_covering = record { required = toy_hash (bytes "foo") 0 ∷ []; optional = [] }

foo_run : build_covering toy (bytes " Foo(") ≡ some foo_covering
unfolding build_covering to_ascii_lowercase gram_hash is_forced_boundary
foo_run = refl

foo_same : lowercase (bytes " fOO(") ≡ lowercase (bytes " Foo(")
unfolding to_ascii_lowercase
foo_same = refl

build_covering-required_example :
    All (IndexedIn toy (bytes "let" ++ (bytes " fOO(" ++ bytes "x)"))) foo_covering.required
build_covering-required_example =
    build_covering-required toy (bytes " Foo(") foo_covering (bytes "let") (bytes " fOO(")
      (bytes "x)") foo_run foo_same

inner_run :
    build_covering_inner toy (bytes "a.fooBarx b")
    ≡ some (toy_hash (bytes "foo") 0 ∷ toy_hash (bytes "barx") 0 ∷ [])
unfolding build_covering_inner to_ascii_lowercase gram_hash is_forced_boundary
inner_run = refl

build_covering_inner-indexed_example :
    All
      (IndexedIn toy (bytes "x" ++ (bytes "a.fooBarx b" ++ bytes "yz")))
      (toy_hash (bytes "foo") 0 ∷ toy_hash (bytes "barx") 0 ∷ [])
build_covering_inner-indexed_example =
    build_covering_inner-indexed toy (bytes "a.fooBarx b") _ (bytes "x") (bytes "yz") inner_run

merged-boundaries_example :
    merge_boundaries
      (boundary_positions_lower toy (lowercase (bytes "aB_cD")))
      (camel_case_boundaries (bytes "aB_cD"))
    ≡ boundary_positions toy (bytes "aB_cD")
merged-boundaries_example = merged-boundaries toy (bytes "aB_cD")
