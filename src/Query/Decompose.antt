-- ===== src/Query/Decompose.antt =====
-- src/query/regex_decompose.rs: a regex as a boolean query over grams. Lengths are numbers of a
-- 64-bit machine: `checked_mul` fails at 2 ^ 64.
use syntext.Prelude.{
  ℕ, zero, suc, ◌*◌, ◌^◌, Bool, false, ◌&&◌, ◌||◌, Option, none, some, List, [], ◌∷◌, ◌++◌, map,
  ltb, leb, ◌==◌, if◌then◌else◌, length, is_empty, ◌+◌,
}
use syntext.Tokenizer.Boundaries.{Tables}
use syntext.Tokenizer.Covering.{build_covering_inner}
use syntext.Query.GramQuery.{GramQuery, Queries}
use syntext.Query.Hir.{Hir, Hirs}

infixl 5 ◌>>=◌
abbrev pub ◌>>=◌ {ℓ κ} : {A : Type ℓ} {B : Type κ} → Option A → (A → Option B) → Option B
none >>= f = none
some a >>= f = f a

abbrev pub max_literal_variants : ℕ
max_literal_variants = 16

-- The texts that a regex matches.
abbrev pub Literals : Type 0
Literals = List (List ℕ)

-- The double loop of `concat_variants`.
unfoldable pub products : Literals → Literals → Literals
products [] right = []
products (prefix ∷ left) right = map (λ suffix. prefix ++ suffix) right ++ products left right

unfoldable pub concat_variants : Literals → Literals → ℕ → Option Literals
unfolding products
concat_variants left right limit =
    if is_empty left || is_empty right
    then some []
    else let total = length left * length right in
      if leb (2 ^ 64) total
      then none
      else if ltb limit total
      then none
      else some (products left right)

-- `for _ in 0..rep.min`
unfoldable pub repeat_variants : ℕ → Literals → Literals → ℕ → Option Literals
unfolding concat_variants
repeat_variants zero variants acc limit = some acc
repeat_variants (suc n) variants acc limit = do
  acc' ← concat_variants acc variants limit
  repeat_variants n variants acc' limit

abbrev pub is_exact : ℕ → Option ℕ → Bool
is_exact min none = false
is_exact min (some max) = max == min && leb max 4

unfoldable mutual
  pub exact_literal_variants : Hir → ℕ → Option Literals
  exact_literal_variants Hir.empty limit = some ([] ∷ [])
  exact_literal_variants (Hir.literal bytes) limit = some (bytes ∷ [])
  exact_literal_variants (Hir.class k) limit = none
  exact_literal_variants (Hir.look k) limit = none
  exact_literal_variants (Hir.repetition min max sub) limit =
      if is_exact min max
      then (exact_literal_variants sub limit >>= λ variants.
          repeat_variants min variants ([] ∷ []) limit)
      else none
  exact_literal_variants (Hir.capture sub) limit = exact_literal_variants sub limit
  exact_literal_variants (Hir.concat subs) limit = concat_each subs ([] ∷ []) limit
  exact_literal_variants (Hir.alternation subs) limit = alternate_each subs [] limit

  pub concat_each : Hirs → Literals → ℕ → Option Literals
  concat_each Hirs.nil acc limit = some acc
  concat_each (Hirs.cons sub subs) acc limit = exact_literal_variants sub limit >>= λ variants.
      concat_variants acc variants limit >>= λ acc'. concat_each subs acc' limit

  pub alternate_each : Hirs → Literals → ℕ → Option Literals
  alternate_each Hirs.nil acc limit = some acc
  alternate_each (Hirs.cons sub subs) acc limit = exact_literal_variants sub limit >>= λ variants.
      if ltb limit (length acc + length variants)
      then none
      else alternate_each subs (acc ++ variants) limit

-- `match branches.len()`
unfoldable pub query_of_branches : Queries → Option GramQuery
query_of_branches Queries.nil = none
query_of_branches (Queries.cons q Queries.nil) = some q
query_of_branches (Queries.cons q (Queries.cons r qs)) =
    some (GramQuery.or (Queries.cons q (Queries.cons r qs)))

-- The arm of `walk` for a literal.
unfoldable pub literal_query : Option (List ℕ) → GramQuery
literal_query none = GramQuery.all
literal_query (some grams) = if is_empty grams then GramQuery.all else GramQuery.grams grams

module _ (t : Tables) where
  unfoldable pub literal_branch : List ℕ → Option GramQuery
  literal_branch literal = do
    grams ← build_covering_inner t literal
    if is_empty grams then none else some (GramQuery.grams grams)

  unfoldable pub literal_branches : Literals → Option Queries
  unfolding literal_branch
  literal_branches [] = some Queries.nil
  literal_branches (literal ∷ literals) = do
    branch ← literal_branch literal
    branches ← literal_branches literals
    some (Queries.cons branch branches)

  unfoldable pub exact_literal_query : Hir → Option GramQuery
  unfolding literal_branches query_of_branches
  exact_literal_query hir = do
    literals ← exact_literal_variants hir max_literal_variants
    branches ← literal_branches literals
    query_of_branches branches

abbrev pub or_else : Option GramQuery → GramQuery → GramQuery
or_else none q = q
or_else (some r) q = r

unfoldable mutual
  unfolding exact_literal_query literal_query

  pub walk : Tables → Hir → GramQuery
  walk t Hir.empty = or_else (exact_literal_query t Hir.empty) GramQuery.all
  walk t (Hir.literal bytes) =
      or_else (exact_literal_query t (Hir.literal bytes))
        (literal_query (build_covering_inner t bytes))
  walk t (Hir.class k) = or_else (exact_literal_query t (Hir.class k)) GramQuery.all
  walk t (Hir.look k) = or_else (exact_literal_query t (Hir.look k)) GramQuery.all
  walk t (Hir.repetition min max sub) =
      or_else (exact_literal_query t (Hir.repetition min max sub))
        (if leb 1 min then walk t sub else GramQuery.all)
  walk t (Hir.capture sub) = or_else (exact_literal_query t (Hir.capture sub)) (walk t sub)
  walk t (Hir.concat subs) =
      or_else (exact_literal_query t (Hir.concat subs)) (GramQuery.and (walk_each t subs))
  walk t (Hir.alternation subs) =
      or_else (exact_literal_query t (Hir.alternation subs)) (GramQuery.or (walk_each t subs))

  pub walk_each : Tables → Hirs → Queries
  walk_each t Hirs.nil = Queries.nil
  walk_each t (Hirs.cons sub subs) = Queries.cons (walk t sub) (walk_each t subs)
