-- ===== src/Query/Sound.antt =====
-- The gram query of a regex holds for every document with a match of the regex.
use syntext.Prelude.{
  ℕ, zero, suc, ◌≤◌, ◌≡◌, refl, sym, ap, ◌∙◌, inl, inr, Bool, true, Option, none, some, List, [],
  ◌∷◌, ◌++◌, Memᴰ, append_assoc, leb, is_empty, contains, mem→contains, All, Bool-cases,
  Option-cases, arith,
}
use syntext.Tokenizer.Boundaries.{Tables}
use syntext.Tokenizer.Grams.{build_all}
use syntext.Tokenizer.Covering.{build_covering_inner}
use syntext.Tokenizer.Required.{IndexedIn, build_covering_inner-indexed}
use syntext.Query.GramQuery.{GramQuery, Queries, holds, all_hold, any_holds, has_all}
use syntext.Query.Hir.{Hir, Hirs, HirSemantics, Repeats, Matcher}
use syntext.Query.Decompose.{
  Literals, exact_literal_variants, literal_branch, literal_branches, query_of_branches,
  exact_literal_query, literal_query, or_else, walk, walk_each, max_literal_variants,
}
use syntext.Query.Exact.{>>=-eq-some, variants-mem}

-- A document has a gram if `build_all` emits it for the document's bytes.
unfoldable pub has_gram : Tables → List ℕ → ℕ → Bool
has_gram t bytes g = contains g (build_all t bytes)

pub has_all_of_indexed :
    (t : Tables) (bytes gs : List ℕ)
    → All (IndexedIn t bytes) gs
    → has_all (has_gram t bytes) gs ≡ true
unfolding has_all has_gram
has_all_of_indexed t bytes [] h = refl
has_all_of_indexed t bytes (g ∷ gs) h =
    rw (mem→contains g (build_all t bytes) h.0) (has_all_of_indexed t bytes gs h.1)

query_of_branches-holds :
    (has : ℕ → Bool) (qs : Queries) (q : GramQuery)
    → query_of_branches qs ≡ some q
    → holds has q ≡ any_holds has qs
unfolding query_of_branches holds
query_of_branches-holds has Queries.nil q h = cc
query_of_branches-holds has (Queries.cons r Queries.nil) q h =
    let e : r ≡ q = cc in rw (← e) (ground arith)
query_of_branches-holds has (Queries.cons r (Queries.cons p qs)) q h =
    let e : GramQuery.or (Queries.cons r (Queries.cons p qs)) ≡ q = cc in rw (← e) refl

first-repeat :
    (M : Matcher) (n : ℕ) (a m c : List ℕ)
    → 1 ≤ n
    → Repeats M n a m c
    → (x : List ℕ) × (y : List ℕ) × (m ≡ x ++ y) × M a x (y ++ c)
first-repeat M zero a m c h r = absurd (omega arith)
first-repeat M (suc n) a m c h (x, y, e, k, rest) = (x, y, e, k)

module _ (t : Tables) (s : HirSemantics) (bytes : List ℕ) where
  open s use {
    Matches, concat_cons, alternation_nil, alternation_cons, repetition_law, literal_law,
    capture_law,
  }

  has : ℕ → Bool
  has = has_gram t bytes

  any_holds-tail :
      (q : GramQuery) (rs : Queries)
      → any_holds has rs ≡ true
      → any_holds has (Queries.cons q rs) ≡ true
  unfolding holds
  any_holds-tail q rs h = ground arith

  -- The text `m` stands in the document behind `a` and before `c`.
  abbrev Stands : List ℕ → List ℕ → List ℕ → Type 0
  Stands a m c = bytes ≡ a ++ (m ++ c)

  fragment-has :
      (a m c gs : List ℕ)
      → Stands a m c
      → build_covering_inner t m ≡ some gs
      → has_all has gs ≡ true
  unfolding has
  fragment-has a m c gs e built =
      has_all_of_indexed t bytes gs (rw e (build_covering_inner-indexed t m gs a c built))

  branch-holds :
      (a m c : List ℕ) (q : GramQuery)
      → Stands a m c
      → literal_branch t m ≡ some q
      → holds has q ≡ true
  unfolding literal_branch holds
  branch-holds a m c q e h =
      let (gs, built, kept) = >>=-eq-some (build_covering_inner t m) _ h in
      elim (Bool-cases (is_empty gs)) [
        | inl none_left ↦ let no_query : none ≡ some q = rw none_left at kept in cc
        | inr some_left ↦
            let same : some (GramQuery.grams gs) ≡ some q = rw some_left at kept in
            let same_query : GramQuery.grams gs ≡ q = cc in
            rw (← same_query) (fragment-has a m c gs e built)
      ]

  literal_branches-cons :
      (l : List ℕ) (ls : Literals) (qs : Queries)
      → literal_branches t (l ∷ ls) ≡ some qs
      → (q : GramQuery) × (rs : Queries) × (literal_branch t l ≡ some q)
        × (literal_branches t ls ≡ some rs)
        × (Queries.cons q rs ≡ qs)
  unfolding literal_branches
  literal_branches-cons l ls qs h =
      let (q, hq, rest) = >>=-eq-some (literal_branch t l) _ h in
      let (rs, hrs, last) = >>=-eq-some (literal_branches t ls) _ rest in (q, rs, hq, hrs, cc)

  branches-hold :
      (a m c : List ℕ) (literals : Literals) (qs : Queries)
      → Stands a m c
      → Memᴰ m literals
      → literal_branches t literals ≡ some qs
      → any_holds has qs ≡ true
  branches-hold a m c [] qs e k h = elim k [ ]
  branches-hold a m c (l ∷ ls) qs e (Memᴰ.head same) h =
      let (q, rs, hq, hrs, whole) = literal_branches-cons l ls qs h in
      rw (← whole) (unfold holds in rw (branch-holds a m c q e (rw (← same) at hq)))
  branches-hold a m c (l ∷ ls) qs e (Memᴰ.tail k) h =
      let (q, rs, hq, hrs, whole) = literal_branches-cons l ls qs h in
      rw (← whole) (any_holds-tail q rs (branches-hold a m c ls rs e k hrs))

  exact-holds :
      (h : Hir) (a m c : List ℕ) (q : GramQuery)
      → Stands a m c
      → Matches h a m c
      → exact_literal_query t h ≡ some q
      → holds has q ≡ true
  unfolding exact_literal_query
  exact-holds h a m c q e k found =
      let (literals, hl, rest) =
        >>=-eq-some (exact_literal_variants h max_literal_variants) _ found in
      let (branches, hb, last) = >>=-eq-some (literal_branches t literals) _ rest in
      rw (query_of_branches-holds has branches q last) (
        branches-hold a m c literals branches e
          (variants-mem s max_literal_variants h a m c literals k hl) hb)

  or_else-holds :
      (h : Hir) (a m c : List ℕ) (rest : GramQuery)
      → Stands a m c
      → Matches h a m c
      → holds has rest ≡ true
      → holds has (or_else (exact_literal_query t h) rest) ≡ true
  or_else-holds h a m c rest e k r = elim (Option-cases (exact_literal_query t h)) [
    | inl miss ↦ rw miss r
    | inr (q, found) ↦ rw found (exact-holds h a m c q e k found)
  ]

  literal_query-holds :
      (a m c : List ℕ)
      → Stands a m c
      → (built : Option (List ℕ)) → build_covering_inner t m ≡ built
      → holds has (literal_query built) ≡ true
  unfolding literal_query holds
  literal_query-holds a m c e none b = refl
  literal_query-holds a m c e (some gs) b = elim (Bool-cases (is_empty gs)) [
    | inl none_left ↦ rw none_left
    | inr some_left ↦ rw some_left (fragment-has a m c gs e b)
  ]

  split-left : (a x y c m : List ℕ) → Stands a m c → m ≡ x ++ y → Stands a x (y ++ c)
  split-left a x y c m e p = e ∙ rw p (ap (λ r. a ++ r) (append_assoc x y c))

  split-right : (a x y c m : List ℕ) → Stands a m c → m ≡ x ++ y → Stands (a ++ x) y c
  split-right a x y c m e p = split-left a x y c m e p ∙ sym (append_assoc a x (y ++ c))

  mutual
    unfolding walk holds

    walk-holds_rec :
        (h : Hir) (a m c : List ℕ) → Stands a m c → Matches h a m c → holds has (walk t h) ≡ true
    walk-holds_rec Hir.empty a m c e k = or_else-holds Hir.empty a m c GramQuery.all e k refl
    walk-holds_rec (Hir.literal bs) a m c e k =
        or_else-holds (Hir.literal bs) a m c _ e k
          (literal_query-holds a m c e _ (ap (build_covering_inner t) (literal_law bs a m c k)))
    walk-holds_rec (Hir.class j) a m c e k =
        or_else-holds (Hir.class j) a m c GramQuery.all e k refl
    walk-holds_rec (Hir.look j) a m c e k = or_else-holds (Hir.look j) a m c GramQuery.all e k refl
    walk-holds_rec (Hir.repetition min max sub) a m c e k =
        let (n, lo, hi, reps) = repetition_law min max sub a m c k in
        or_else-holds (Hir.repetition min max sub) a m c _ e k (elim (Bool-cases (leb 1 min)) [
          | inl r ↦
              let (x, y, p, kx) = first-repeat (Matches sub) n a m c (ground arith) reps in
              rw r (walk-holds_rec sub a x (y ++ c) (split-left a x y c m e p) kx)
          | inr r ↦ rw r
        ])
    walk-holds_rec (Hir.capture sub) a m c e k =
        or_else-holds (Hir.capture sub) a m c _ e k
          (walk-holds_rec sub a m c e (capture_law sub a m c k))
    walk-holds_rec (Hir.concat subs) a m c e k =
        or_else-holds (Hir.concat subs) a m c _ e k (walk_each-all subs a m c e k)
    walk-holds_rec (Hir.alternation subs) a m c e k =
        or_else-holds (Hir.alternation subs) a m c _ e k (walk_each-any subs a m c e k)

    walk_each-all :
        (hs : Hirs) (a m c : List ℕ)
        → Stands a m c
        → Matches (Hir.concat hs) a m c
        → all_hold has (walk_each t hs) ≡ true
    walk_each-all Hirs.nil a m c e k = refl
    walk_each-all (Hirs.cons sub subs) a m c e k =
        let (x, y, p, kx, ky) = concat_cons sub subs a m c k in
        rw (walk-holds_rec sub a x (y ++ c) (split-left a x y c m e p) kx)
          (walk_each-all subs (a ++ x) y c (split-right a x y c m e p) ky)

    walk_each-any :
        (hs : Hirs) (a m c : List ℕ)
        → Stands a m c
        → Matches (Hir.alternation hs) a m c
        → any_holds has (walk_each t hs) ≡ true
    walk_each-any Hirs.nil a m c e k = absurd (alternation_nil a m c k)
    walk_each-any (Hirs.cons sub subs) a m c e k = elim (alternation_cons sub subs a m c k) [
      | inl here ↦ rw (walk-holds_rec sub a m c e here)
      | inr later ↦
          any_holds-tail (walk t sub) (walk_each t subs) (walk_each-any subs a m c e later)
    ]

-- A regex that matches a text `m` of a document decomposes into a query that holds for the grams of
-- the document, whatever stands around `m`.
pub holds-walk :
    (t : Tables) (s : HirSemantics) (h : Hir) (a m c : List ℕ)
    → s.Matches h a m c
    → holds (has_gram t (a ++ (m ++ c))) (walk t h) ≡ true
unfolding has
holds-walk t s h a m c k = walk-holds_rec t s (a ++ (m ++ c)) h a m c refl k
