-- ===== src/Query/RouteSound.antt =====
-- The query of an indexed search holds for the documents with a match.
use syntext.Prelude.{
  ℕ, ◌≡◌, refl, ap, not, ◌&&◌, ◌⊎◌, inl, inr, Bool, true, false, Option, none, some, List, ◌++◌,
  is_empty, Bool-cases, arith,
}
use syntext.Tokenizer.Boundaries.{Tables, lowercase}
use syntext.Tokenizer.Covering.{CoveringSet, build_covering}
use syntext.Tokenizer.Required.{build_covering-required}
use syntext.Query.GramQuery.{GramQuery, holds, simplify}
use syntext.Query.Hir.{Hir, HirSemantics}
use syntext.Query.Decompose.{walk}
use syntext.Query.Route.{
  RouteError, indexed_regex, full_scan, ok, err, is_literal, route_query, route_hir, route_covering,
  route_gram_query, hir_contains_literal_newline,
}
use syntext.Query.Simplify.{holds-simplify}
use syntext.Query.Sound.{has_gram, has_all_of_indexed, holds-walk}

module _ (t : Tables) (parse : List ℕ → Bool → Option Hir) (s : HirSemantics) where
  -- A text `m` that the pattern matches between `a` and `c`, as verification tests it where
  -- no other pattern is given for it: a case-sensitive pattern with no metacharacter matches itself
  -- alone, any other one what its regex matches.
  abbrev pub PatternMatches : List ℕ → Bool → List ℕ → List ℕ → List ℕ → Type 0
  PatternMatches pattern ci a m c =
      ((is_literal pattern && not ci) ≡ true → m ≡ pattern)
      × ((is_literal pattern && not ci) ≡ false
          → (h : Hir) × (parse pattern ci ≡ some h) × s.Matches h a m c)

  -- A case-insensitive pattern with no metacharacter differs from the text that it matches at most in
  -- the case of ASCII letters. The regex of the verification folds the case of other letters as well,
  -- the grams do not.
  abbrev pub AsciiCase : List ℕ → Bool → List ℕ → Type 0
  AsciiCase pattern ci m = (is_literal pattern && ci) ≡ true → lowercase m ≡ lowercase pattern

  pub literal-lowercase :
      (pattern : List ℕ) (ci : Bool) (a m c : List ℕ)
      → PatternMatches pattern ci a m c
      → AsciiCase pattern ci m
      → is_literal pattern ≡ true
      → lowercase m ≡ lowercase pattern
  literal-lowercase pattern true a m c hits ascii plain = ascii (rw plain refl)
  literal-lowercase pattern false a m c hits ascii plain = ap lowercase (hits.0 (rw plain refl))

  route_gram_query-eq : (q r : GramQuery) → route_gram_query q ≡ indexed_regex r → q ≡ r
  unfolding route_gram_query
  route_gram_query-eq (GramQuery.and qs) r h = cc
  route_gram_query-eq (GramQuery.or qs) r h = cc
  route_gram_query-eq (GramQuery.grams hs) r h = cc
  route_gram_query-eq GramQuery.all r h = cc
  route_gram_query-eq GramQuery.none r h = cc

  route_covering-holds :
      (pattern a m c : List ℕ) (o : Option CoveringSet) (q : GramQuery)
      → build_covering t pattern ≡ o
      → route_covering o ≡ indexed_regex q
      → lowercase m ≡ lowercase pattern
      → holds (has_gram t (a ++ (m ++ c))) q ≡ true
  route_covering-holds pattern a m c none q b h e = cc
  route_covering-holds pattern a m c (some covering) q b h e =
      elim (Bool-cases (is_empty covering.required)) [
        | inl gone ↦ let scan : full_scan ≡ indexed_regex q = rw gone at h in cc
        | inr kept ↦
            let route : indexed_regex (GramQuery.grams covering.required) ≡ indexed_regex q =
              rw kept at h in
            let same : GramQuery.grams covering.required ≡ q = cc in
            rw (← same) (
              unfold holds in
              has_all_of_indexed t (a ++ (m ++ c)) covering.required
                (build_covering-required t pattern covering a m c b e))
      ]

  route_hir-holds :
      (o : Option Hir) (h : Hir) (a m c : List ℕ) (q : GramQuery)
      → o ≡ some h
      → s.Matches h a m c
      → route_hir t parse o ≡ ok (indexed_regex q)
      → holds (has_gram t (a ++ (m ++ c))) q ≡ true
  unfolding route_hir
  route_hir-holds none h a m c q e k r = cc
  route_hir-holds (some h') h a m c q e k r = elim (Bool-cases (hir_contains_literal_newline h')) [
    | inl refused ↦
        let wrong : err RouteError.newline_not_allowed ≡ ok (indexed_regex q) = rw refused at r in
        cc
    | inr taken ↦
        let routed : ok (route_gram_query (simplify (walk t h'))) ≡ ok (indexed_regex q) =
          rw taken at r in
        let same : simplify (walk t h') ≡ q = route_gram_query-eq _ q (cc) in
        let tree : h' ≡ h = cc in rw (← same, holds-simplify, tree) (holds-walk t s h a m c k)
  ]

  route_query-indexed :
      (pattern : List ℕ) (ci : Bool) (q : GramQuery)
      → route_query t parse pattern ci ≡ ok (indexed_regex q)
      → ((is_literal pattern ≡ true)
          × (route_covering (build_covering t pattern) ≡ indexed_regex q))
        ⊎ ((is_literal pattern ≡ false)
            × (route_hir t parse (parse pattern ci) ≡ ok (indexed_regex q)))
  unfolding route_query
  route_query-indexed pattern ci q r = ground arith

  -- Where a pattern is routed to an indexed search, the query holds for the grams of every document
  -- with a match of the pattern, provided that a match of a case-insensitive pattern with no
  -- metacharacter differs from it at most in the case of ASCII letters.
  pub route_query-holds :
      (pattern : List ℕ) (ci : Bool) (a m c : List ℕ) (q : GramQuery)
      → route_query t parse pattern ci ≡ ok (indexed_regex q)
      → PatternMatches pattern ci a m c
      → AsciiCase pattern ci m
      → holds (has_gram t (a ++ (m ++ c))) q ≡ true
  route_query-holds pattern ci a m c q r hits ascii = elim (route_query-indexed pattern ci q r) [
    | inl (plain, covered) ↦
        route_covering-holds pattern a m c (build_covering t pattern) q refl covered
          (literal-lowercase pattern ci a m c hits ascii plain)
    | inr (meta, parsed) ↦
        let (h, e, k) = hits.1 (rw meta refl) in
        route_hir-holds (parse pattern ci) h a m c q e k parsed
  ]
