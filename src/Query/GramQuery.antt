-- ===== src/Query/GramQuery.antt =====
-- src/query/mod.rs: `GramQuery` and `simplify`. A `Vec<GramQuery>` is the type `Queries`.
use syntext.Prelude.{ℕ, Bool, true, false, ◌&&◌, ◌||◌, List, [], ◌∷◌, if◌then◌else◌}

mutual
  pub data GramQuery : Type 0 where
    and : Queries → GramQuery
    or : Queries → GramQuery
    grams : List ℕ → GramQuery
    all : GramQuery
    none : GramQuery

  pub data Queries : Type 0 where
    nil : Queries
    cons : GramQuery → Queries → Queries

unfoldable pub is_all : GramQuery → Bool
is_all all = true
is_all q = false

-- `filter(|c| !matches!(c, All))`
unfoldable pub without_all : Queries → Queries
unfolding is_all
without_all nil = nil
without_all (cons q qs) = let rest = without_all qs in if is_all q then rest else cons q rest

unfoldable pub any_all : Queries → Bool
unfolding is_all
any_all nil = false
any_all (cons q qs) = is_all q || any_all qs

-- The `match simplified.len()` of each arm.
unfoldable pub and_of : Queries → GramQuery
and_of nil = all
and_of (cons q nil) = q
and_of (cons q (cons r qs)) = and (cons q (cons r qs))

unfoldable pub or_of : Queries → GramQuery
or_of nil = none
or_of (cons q nil) = q
or_of (cons q (cons r qs)) = or (cons q (cons r qs))

unfoldable mutual
  pub simplify : GramQuery → GramQuery
  simplify (and children) = and_of (without_all (simplify_each children))
  simplify (or children) =
      let simplified = simplify_each children in
      if any_all simplified then all else or_of simplified
  simplify (grams hashes) = grams hashes
  simplify all = all
  simplify none = none

  pub simplify_each : Queries → Queries
  simplify_each nil = nil
  simplify_each (cons q qs) = cons (simplify q) (simplify_each qs)

-- The meaning of a query for a document, given by a test for the grams it has.
module _ (has : ℕ → Bool) where
  unfoldable pub has_all : List ℕ → Bool
  has_all [] = true
  has_all (g ∷ gs) = has g && has_all gs

unfoldable mutual
  pub holds : (ℕ → Bool) → GramQuery → Bool
  holds has (and children) = all_hold has children
  holds has (or children) = any_holds has children
  holds has (grams hashes) = has_all has hashes
  holds has all = true
  holds has none = false

  pub all_hold : (ℕ → Bool) → Queries → Bool
  all_hold has nil = true
  all_hold has (cons q qs) = holds has q && all_hold has qs

  pub any_holds : (ℕ → Bool) → Queries → Bool
  any_holds has nil = false
  any_holds has (cons q qs) = holds has q || any_holds has qs
