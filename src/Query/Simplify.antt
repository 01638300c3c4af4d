-- ===== src/Query/Simplify.antt =====
-- `GramQuery::simplify` keeps the meaning of a query and leaves a reduced tree.
use syntext.Prelude.{
  ℕ, ◌≡◌, refl, sym, ap, ◌∙◌, Bool, true, false, ◌&&◌, if◌then◌else◌, Bool-cases, inl, inr, arith,
}
use syntext.Query.GramQuery.{
  GramQuery, Queries, without_all, any_all, and_of, or_of, simplify, simplify_each, holds, all_hold,
  any_holds,
}

module _ (has : ℕ → Bool) where
  all_hold-without_all : (qs : Queries) → all_hold has (without_all qs) ≡ all_hold has qs
  unfolding holds without_all
  all_hold-without_all Queries.nil = refl
  all_hold-without_all (Queries.cons GramQuery.all qs) = all_hold-without_all qs
  all_hold-without_all (Queries.cons q qs) = ap (λ b. holds has q && b) (all_hold-without_all qs)

  holds-and_of : (qs : Queries) → holds has (and_of qs) ≡ all_hold has qs
  unfolding holds and_of
  holds-and_of Queries.nil = refl
  holds-and_of (Queries.cons q Queries.nil) = ground arith
  holds-and_of (Queries.cons q (Queries.cons r qs)) = refl

  holds-or_of : (qs : Queries) → holds has (or_of qs) ≡ any_holds has qs
  unfolding holds or_of
  holds-or_of Queries.nil = refl
  holds-or_of (Queries.cons q Queries.nil) = ground arith
  holds-or_of (Queries.cons q (Queries.cons r qs)) = refl

  any_all-holds : (qs : Queries) → any_all qs ≡ true → any_holds has qs ≡ true
  unfolding holds any_all
  any_all-holds Queries.nil h = cc
  any_all-holds (Queries.cons GramQuery.all qs) h = refl
  any_all-holds (Queries.cons q qs) h = ground (arith, any_all-holds qs h)

mutual
  unfolding simplify holds

  holds-simplify_rec : (has : ℕ → Bool) (q : GramQuery) → holds has (simplify q) ≡ holds has q
  holds-simplify_rec has (GramQuery.and children) =
      holds-and_of has (without_all (simplify_each children))
      ∙ all_hold-without_all has (simplify_each children)
      ∙ (holds-simplify_each has children).0
  holds-simplify_rec has (GramQuery.or children) =
      elim (Bool-cases (any_all (simplify_each children))) [
        | inl e ↦ rw e (
            sym (any_all-holds has (simplify_each children) e)
            ∙ (holds-simplify_each has children).1)
        | inr e ↦
            rw e (holds-or_of has (simplify_each children) ∙ (holds-simplify_each has children).1)
      ]
  holds-simplify_rec has (GramQuery.grams hashes) = refl
  holds-simplify_rec has GramQuery.all = refl
  holds-simplify_rec has GramQuery.none = refl

  holds-simplify_each :
      (has : ℕ → Bool) (qs : Queries)
      → (all_hold has (simplify_each qs) ≡ all_hold has qs)
        × (any_holds has (simplify_each qs) ≡ any_holds has qs)
  holds-simplify_each has Queries.nil = (refl, refl)
  holds-simplify_each has (Queries.cons q qs) =
      rw (holds-simplify_rec has q, (holds-simplify_each has qs).0, (holds-simplify_each has qs).1)
        (refl, refl)

-- For every document a query holds before it is simplified exactly when it holds after.
pub holds-simplify : (has : ℕ → Bool) (q : GramQuery) → holds has (simplify q) ≡ holds has q
holds-simplify has q = holds-simplify_rec has q

-- At least two children, none of which is `All`; so at every depth.
abbrev has_two : Queries → Bool
has_two Queries.nil = false
has_two (Queries.cons q Queries.nil) = false
has_two (Queries.cons q (Queries.cons r qs)) = true

unfoldable mutual
  unfolding any_all

  pub is_reduced : GramQuery → Bool
  is_reduced (GramQuery.and children) =
      has_two children && (if any_all children then false else all_reduced children)
  is_reduced (GramQuery.or children) =
      has_two children && (if any_all children then false else all_reduced children)
  is_reduced (GramQuery.grams hashes) = true
  is_reduced GramQuery.all = true
  is_reduced GramQuery.none = true

  pub all_reduced : Queries → Bool
  all_reduced Queries.nil = true
  all_reduced (Queries.cons q qs) = is_reduced q && all_reduced qs

without_all-reduced :
    (qs : Queries)
    → all_reduced qs ≡ true
    → (any_all (without_all qs) ≡ false) × (all_reduced (without_all qs) ≡ true)
unfolding is_reduced without_all
without_all-reduced Queries.nil h = (refl, refl)
without_all-reduced (Queries.cons GramQuery.all qs) h = ground (arith, without_all-reduced qs)
without_all-reduced (Queries.cons q qs) h = ground (arith, without_all-reduced qs)

and_of-reduced :
    (qs : Queries) → any_all qs ≡ false → all_reduced qs ≡ true → is_reduced (and_of qs) ≡ true
unfolding is_reduced and_of
and_of-reduced Queries.nil a h = refl
and_of-reduced (Queries.cons q Queries.nil) a h = ground arith
and_of-reduced (Queries.cons q (Queries.cons r qs)) a h = rw a h

or_of-reduced :
    (qs : Queries) → any_all qs ≡ false → all_reduced qs ≡ true → is_reduced (or_of qs) ≡ true
unfolding is_reduced or_of
or_of-reduced Queries.nil a h = refl
or_of-reduced (Queries.cons q Queries.nil) a h = ground arith
or_of-reduced (Queries.cons q (Queries.cons r qs)) a h = rw a h

mutual
  unfolding simplify is_reduced

  simplify-reduced_rec : (q : GramQuery) → is_reduced (simplify q) ≡ true
  simplify-reduced_rec (GramQuery.and children) =
      let (free, kept) =
        without_all-reduced (simplify_each children) (simplify_each-reduced children) in
      and_of-reduced (without_all (simplify_each children)) free kept
  simplify-reduced_rec (GramQuery.or children) =
      elim (Bool-cases (any_all (simplify_each children))) [
        | inl e ↦ rw e
        | inr e ↦ rw e (or_of-reduced (simplify_each children) e (simplify_each-reduced children))
      ]
  simplify-reduced_rec (GramQuery.grams hashes) = refl
  simplify-reduced_rec GramQuery.all = refl
  simplify-reduced_rec GramQuery.none = refl

  simplify_each-reduced : (qs : Queries) → all_reduced (simplify_each qs) ≡ true
  simplify_each-reduced Queries.nil = refl
  simplify_each-reduced (Queries.cons q qs) = rw (simplify-reduced_rec q) (simplify_each-reduced qs)

-- What `simplify` returns has no `And` or `Or` with fewer than two children or with a child `All`,
-- at any depth.
pub simplify-reduced : (q : GramQuery) → is_reduced (simplify q) ≡ true
simplify-reduced q = simplify-reduced_rec q
