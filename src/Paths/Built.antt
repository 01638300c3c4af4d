-- ===== src/Paths/Built.antt =====
-- A path index built from a list of paths.
use mathlib.Core.Path.{subst}
use native.Mathlib.Nat.{mod-eq_of_lt}
use syntext.Prelude.{
  ℕ, suc, ◌+◌, ◌%◌, ◌^◌, ◌<◌, ◌≡◌, refl, sym, ap, ◌∙◌, true, false, inl, inr, Option, none, some,
  List, [], ◌∷◌, ◌==◌, if◌then◌else◌, length, contains, Bool-cases, ==_iff, arith,
}
use syntext.Index.Bitmap.{RoaringBitmap}
use syntext.Paths.PathIndex.{PathIndex, lookup_id, add_path, no_paths, build_from, build, file_id}
use syntext.Paths.Valid.{
  is_known, Consistent, Consistent-with, add_path-Consistent, no_paths-Consistent,
}
use syntext.Paths.Added.{Valid, add_path-file_id, add_path-listed, add_path-counted}

-- No path stands twice.
abbrev pub IsDistinct : List ℕ → Type 0
IsDistinct [] = Unit {0}
IsDistinct (p ∷ ps) = (contains p ps ≡ false) × IsDistinct ps

-- Where the path stands in the list, counted from `i` on.
unfoldable pub position : ℕ → ℕ → List ℕ → Option ℕ
position q i [] = none
position q i (p ∷ ps) = if p == q then some i else position q (suc i) ps

abbrev or_position : Option ℕ → Option ℕ → Option ℕ
or_position none o = o
or_position (some i) o = some i

module _ (R : RoaringBitmap) (text : ℕ → List ℕ) where
  abbrev Tabled : PathIndex R → Type 0
  Tabled idx = Consistent R text idx × ((q : ℕ) → contains q idx.paths ≡ is_known (file_id R q idx))

  abbrev Unknown : List ℕ → PathIndex R → Type 0
  Unknown ps idx = (q : ℕ) → contains q ps ≡ true → file_id R q idx ≡ none

  Unknown-first :
      (p : ℕ) (ps : List ℕ) (idx : PathIndex R) → Unknown (p ∷ ps) idx → file_id R p idx ≡ none
  unfolding contains
  Unknown-first p ps idx h = h p (ground arith)

  Unknown-rest :
      (id p : ℕ) (ps : List ℕ) (idx : PathIndex R)
      → contains p ps ≡ false
      → Unknown (p ∷ ps) idx
      → Unknown ps (add_path R text id p idx)
  unfolding contains
  Unknown-rest id p ps idx once h q there = elim (Bool-cases (p == q)) [
    | inl same ↦
        let r : p ≡ q = (==_iff p q).0 same in let gone : contains q ps ≡ false = rw r at once in cc
    | inr other ↦ rw (add_path-file_id R text id p q idx, other) (h q (rw there (ground arith)))
  ]

  position-add :
      (p q id : ℕ) (o rest : Option ℕ)
      → (p ≡ q → o ≡ none)
      → or_position (if p == q then some id else o) rest
        ≡ or_position o (if p == q then some id else rest)
  position-add p q id o rest h = elim (Bool-cases (p == q)) [
    | inl same ↦ rw (same, h ((==_iff p q).0 same)) refl
    | inr other ↦ rw other refl
  ]

  abbrev Built : ℕ → List ℕ → PathIndex R → PathIndex R → Type 0
  Built i ps idx r =
      Tabled r
      × (length r.file_id_to_path ≡ i + length ps)
      × ((q : ℕ) → file_id R q r ≡ or_position (file_id R q idx) (position q i ps))

  or_position_none : (o : Option ℕ) → o ≡ or_position o none
  or_position_none none = refl
  or_position_none (some i) = refl

  build_from-Built :
      (i : ℕ) (ps : List ℕ) (idx : PathIndex R)
      → length idx.file_id_to_path ≡ i
      → i + length ps < 2 ^ 32
      → IsDistinct ps
      → Unknown ps idx
      → Tabled idx
      → Built i ps idx (build_from R text i ps idx)
  unfolding build_from position
  build_from-Built i [] idx n fits d u k =
      (k, omega (arith, n), λ q. or_position_none (file_id R q idx))
  build_from-Built i (p ∷ ps) idx n fits (once, d) u (c, l) =
      let id : i % 2 ^ 32 ≡ i = mod-eq_of_lt (omega arith) in
      let new = Unknown-first p ps idx u in
      let next = add_path R text i p idx in
      let c' : Consistent R text next =
        subst (λ k. Consistent R text (add_path R text k p idx)) n
          (add_path-Consistent R text p idx new c) in
      let (k', n', at) =
        build_from-Built (suc i) ps next (omega (arith, add_path-counted R text i p idx))
          (omega arith) d (Unknown-rest i p ps idx once u) (c', add_path-listed R text i p idx l) in
      subst (λ m. Built i (p ∷ ps) idx (build_from R text (suc i) ps (add_path R text m p idx)))
        (sym id)
        (
          k',
          omega (arith, n'),
          λ q.
              at q
              ∙ ap (λ o. or_position o (position q (suc i) ps)) (add_path-file_id R text i p q idx)
              ∙ position-add p q i (file_id R q idx) (position q (suc i) ps)
                  (λ e. ap (λ x. file_id R x idx) (sym e) ∙ new),
        )

  -- From fewer than 2 ^ 32 paths, each once, the build yields a valid index, in which a path's id is
  -- its place in the list.
  pub build-Valid :
      (ps : List ℕ)
      → length ps < 2 ^ 32
      → IsDistinct ps
      → Valid R text (build R text ps) × ((p : ℕ) → file_id R p (build R text ps) ≡ position p 0 ps)
  unfolding build
  build-Valid ps fits d =
      let r = build_from R text 0 ps (no_paths R) in
      let ((c, l), n, at) =
        build_from-Built 0 ps (no_paths R) refl (omega arith) d (λ q h. unfold lookup_id in refl)
          (no_paths-Consistent R text, λ q. unfold contains lookup_id in refl) in
      (
        record {
          consistent = Consistent-with R text r r.paths (length ps % 2 ^ 32) c;
          counted = n ∙ (omega arith);
          listed = l;
        },
        λ p. at p ∙ (unfold lookup_id in refl),
      )
