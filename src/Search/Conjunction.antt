-- ===== src/Search/Conjunction.antt =====
-- A conjunction yields the intersection of its operands, whatever their order, and also where it
-- stops early.
use syntext.Prelude.{
  ℕ, ◌≡◌, refl, Bool, true, ◌&&◌, inl, inr, List, [], ◌∷◌, leb, if◌then◌else◌, Bool-cases, arith,
}
use syntext.Index.Bitmap.{RoaringBitmap}
use syntext.Index.Snapshot.{IndexSnapshot}
use syntext.Search.Postings.{return}
use syntext.Search.Cardinality.{insert_by_key, sort_by_cached_key}
use syntext.Search.Execute.{Keyed, and_loop, run_and}
use syntext.Search.Computes.{Computes, Computes-ext, Computes-return, Computes-and_then}

pub insert_by_key-cons :
    {A : Type 0} (x : ℕ × A) (xs : List (ℕ × A))
    → (y : ℕ × A) × (ys : List (ℕ × A)) × (insert_by_key x xs ≡ y ∷ ys)
unfolding insert_by_key
insert_by_key-cons x [] = (x, [], refl)
insert_by_key-cons x (y ∷ ys) = elim (Bool-cases (leb x.0 y.0)) [
  | inl le ↦ (x, y ∷ ys, rw le refl)
  | inr gt ↦ (y, insert_by_key x ys, rw gt refl)
]

module _ (R : RoaringBitmap) (snap : IndexSnapshot R) where
  open R use {
    Bitmap, new, intersect, union, no_ids, has, has-intersect, has-union, has-new, no_ids_has,
    contains-iter,
  }

  -- The operands compute sets whose intersection is `f`.
  abbrev pub Conj : List (Keyed R snap) → (ℕ → Bool) → Type 0
  Conj [] f = (d : ℕ) → f d ≡ true
  Conj (x ∷ xs) f =
      (h : ℕ → Bool) × (t : ℕ → Bool) × Computes R snap x.1 h
      × Conj xs t
      × ((d : ℕ) → f d ≡ (h d && t d))

  insert_by_key-Conj :
      (x : Keyed R snap) (xs : List (Keyed R snap)) (f : ℕ → Bool)
      → Conj (x ∷ xs) f
      → Conj (insert_by_key x xs) f
  unfolding insert_by_key
  insert_by_key-Conj x [] f c = c
  insert_by_key-Conj x (y ∷ ys) f (h, t, m, (h', t', m', c, e'), e) =
      elim (Bool-cases (leb x.0 y.0)) [
        | inl le ↦ rw le (h, t, m, (h', t', m', c, e'), e)
        | inr gt ↦ rw gt (
          h',
          λ d. h d && t' d,
          m',
          insert_by_key-Conj x ys (λ d. h d && t' d) (h, t', m, c, λ d. refl),
          λ d. ground (arith, e d, e' d),
        )
      ]

  sort-Conj : (xs : List (Keyed R snap)) (f : ℕ → Bool) → Conj xs f → Conj (sort_by_cached_key xs) f
  unfolding sort_by_cached_key
  sort-Conj [] f c = c
  sort-Conj (x ∷ xs) f (h, t, m, c, e) =
      insert_by_key-Conj x (sort_by_cached_key xs) f (h, t, m, sort-Conj xs t c, e)

  and_loop-Computes :
      (acc : Bitmap) (xs : List (Keyed R snap)) (a t : ℕ → Bool)
      → ((d : ℕ) → has acc d ≡ a d)
      → Conj xs t
      → Computes R snap (and_loop R snap acc xs) (λ d. a d && t d)
  unfolding and_loop
  and_loop-Computes acc [] a t e c = Computes-return R snap acc _ (λ d. ground (arith, e d, c d))
  and_loop-Computes acc (x ∷ xs) a t e (h, t', m, c, et) =
      Computes-and_then R snap x.1 h (λ d. a d && t d)
        (λ b.
          let acc' = intersect acc b in
          let later = and_loop R snap acc' xs in if no_ids acc' then return R acc' else later)
        m
        (λ b eb s coh. elim (Bool-cases (no_ids (intersect acc b))) [
          | inl none_left ↦ rw none_left (
            λ d. ground (
              arith,
              no_ids_has (intersect acc b) d none_left,
              has-intersect acc b d,
              e d,
              eb d,
              et d,
            ),
            coh,
          )
          | inr some_left ↦ rw some_left (
              Computes-ext R snap (and_loop R snap (intersect acc b) xs)
                (and_loop-Computes (intersect acc b) xs (λ d. a d && h d) t'
                  (λ d. rw (has-intersect acc b d, e d, eb d) refl) c)
                (λ d. ground (arith, et d)) s coh)
        ])

  run_and-Computes :
      (x : Keyed R snap) (xs : List (Keyed R snap)) (f : ℕ → Bool)
      → Conj (x ∷ xs) f
      → Computes R snap (run_and R snap (x ∷ xs)) f
  unfolding run_and
  run_and-Computes x xs f (h, t, m, c, e) =
      Computes-and_then R snap x.1 h f (λ acc. and_loop R snap acc xs) m
        (λ b eb.
          Computes-ext R snap (and_loop R snap b xs) (and_loop-Computes b xs h t eb c)
            (λ d. ground (arith, e d)))

  pub sorted_and-Computes :
      (x : Keyed R snap) (xs : List (Keyed R snap)) (f : ℕ → Bool)
      → Conj (x ∷ xs) f
      → Computes R snap (run_and R snap (sort_by_cached_key (x ∷ xs))) f
  unfolding sort_by_cached_key
  sorted_and-Computes x xs f c =
      let sorted : Conj (insert_by_key x (sort_by_cached_key xs)) f = sort-Conj (x ∷ xs) f c in
      let (y, ys, e) = insert_by_key-cons x (sort_by_cached_key xs) in
      rw e (run_and-Computes y ys f (rw e at sorted))
