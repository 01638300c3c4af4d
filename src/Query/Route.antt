-- ===== src/Query/Route.antt =====
-- src/query/mod.rs: `route_query`. A pattern is its UTF-8 bytes. The parser of regex_syntax is a
-- parameter; that it fails with a message is `none`.
use syntext.Prelude.{
  contains, ℕ, Bool, false, ◌&&◌, ◌||◌, not, Option, none, some, List, [], ◌∷◌, if◌then◌else◌,
  is_empty,
}
use syntext.Tokenizer.Boundaries.{Tables}
use syntext.Tokenizer.Covering.{CoveringSet, build_covering}
use syntext.Query.GramQuery.{GramQuery, simplify}
use syntext.Query.Hir.{Hir, Hirs}
use syntext.Query.Decompose.{walk}

pub data QueryRoute : Type 0 where
  literal : QueryRoute
  indexed_regex : GramQuery → QueryRoute
  full_scan : QueryRoute

pub data RouteError : Type 0 where
  newline_not_allowed invalid_regex : RouteError

pub data RouteResult : Type 0 where
  ok : QueryRoute → RouteResult
  err : RouteError → RouteResult

abbrev metacharacters : List ℕ
metacharacters =
    b'.' ∷ b'*' ∷ b'+' ∷ b'?' ∷ b'[' ∷ b']' ∷ b'{' ∷ b'}' ∷ b'(' ∷ b')' ∷ b'|' ∷ b'^' ∷ b'$' ∷ 0x5C
    ∷ []

any_meta : List ℕ → Bool
unfolding contains
any_meta [] = false
any_meta (c ∷ cs) = contains c metacharacters || any_meta cs

unfoldable pub is_literal : List ℕ → Bool
unfolding any_meta
is_literal pattern = not (any_meta pattern)

unfoldable mutual
  pub hir_contains_literal_newline : Hir → Bool
  hir_contains_literal_newline Hir.empty = false
  hir_contains_literal_newline (Hir.literal bytes) = contains 0x0A bytes
  hir_contains_literal_newline (Hir.class k) = false
  hir_contains_literal_newline (Hir.look k) = false
  hir_contains_literal_newline (Hir.repetition min max sub) = hir_contains_literal_newline sub
  hir_contains_literal_newline (Hir.capture sub) = hir_contains_literal_newline sub
  hir_contains_literal_newline (Hir.concat subs) = any_contains_newline subs
  hir_contains_literal_newline (Hir.alternation subs) = any_contains_newline subs

  pub any_contains_newline : Hirs → Bool
  any_contains_newline Hirs.nil = false
  any_contains_newline (Hirs.cons sub subs) =
      hir_contains_literal_newline sub || any_contains_newline subs

abbrev pub route_covering : Option CoveringSet → QueryRoute
route_covering none = full_scan
route_covering (some covering) =
    if is_empty covering.required
    then full_scan
    else indexed_regex (GramQuery.grams covering.required)

-- The last `match` of `route_query`.
unfoldable pub route_gram_query : GramQuery → QueryRoute
route_gram_query GramQuery.all = full_scan
route_gram_query GramQuery.none = full_scan
route_gram_query (GramQuery.and qs) = indexed_regex (GramQuery.and qs)
route_gram_query (GramQuery.or qs) = indexed_regex (GramQuery.or qs)
route_gram_query (GramQuery.grams hs) = indexed_regex (GramQuery.grams hs)

module _ (t : Tables) (parse : List ℕ → Bool → Option Hir) where
  unfoldable pub route_hir : Option Hir → RouteResult
  unfolding route_gram_query
  route_hir none = err invalid_regex
  route_hir (some hir) =
      if hir_contains_literal_newline hir
      then err newline_not_allowed
      else ok (route_gram_query (simplify (walk t hir)))

  unfoldable pub route_query : List ℕ → Bool → RouteResult
  route_query pattern case_insensitive =
      if contains 0x0A pattern
      then err newline_not_allowed
      else if case_insensitive && is_literal pattern
      then ok (route_covering (build_covering t pattern))
      else if not case_insensitive && is_literal pattern
      then ok literal
      else route_hir (parse pattern case_insensitive)
