-- ===== src/Paths/Table.antt =====
-- The tables of file ids and paths, under the steps of the path index.
use syntext.Prelude.{
  ℕ, zero, suc, ◌≡◌, refl, ap, not, ◌&&◌, inl, inr, Option, none, some, List, [], ◌∷◌, ◌++◌, ◌==◌,
  if◌then◌else◌, length, get_elem?, contains, Bool-cases, ==_iff, arith,
}
use syntext.Paths.PathIndex.{lookup_id, insert_id, remove_id, tombstone, retain_paths}

pub lookup-insert_id :
    (q p id : ℕ) (m : List (ℕ × ℕ))
    → lookup_id q (insert_id p id m) ≡ (if p == q then some id else lookup_id q m)
unfolding lookup_id insert_id
lookup-insert_id q p id [] = refl
lookup-insert_id q p id ((r, j) ∷ m) =
    ground (arith, ==_iff r p, ==_iff r q, ==_iff p q, lookup-insert_id q p id m)

pub lookup-remove_id :
    (q p : ℕ) (m : List (ℕ × ℕ))
    → lookup_id q (remove_id p m) ≡ (if p == q then none else lookup_id q m)
unfolding lookup_id remove_id
lookup-remove_id q p [] = ground arith
lookup-remove_id q p ((r, j) ∷ m) =
    ground (arith, ==_iff r p, ==_iff r q, ==_iff p q, lookup-remove_id q p m)

pub get_elem?-last :
    (xs : List (Option ℕ)) (y : Option ℕ) (i : ℕ)
    → get_elem? (xs ++ (y ∷ [])) i ≡ (if length xs == i then some y else get_elem? xs i)
get_elem?-last [] y zero = refl
get_elem?-last [] y (suc i) = ground arith
get_elem?-last (x ∷ xs) y zero = ground arith
get_elem?-last (x ∷ xs) y (suc i) = ground (arith, get_elem?-last xs y i)

pub get_elem?-end : (xs : List (Option ℕ)) → get_elem? xs (length xs) ≡ none
get_elem?-end [] = refl
get_elem?-end (x ∷ xs) = get_elem?-end xs

abbrev pub Cleared : ℕ → List (Option ℕ) → Type 0
Cleared id ps =
    (cleared : List (Option ℕ)) × (tombstone id ps ≡ some cleared)
    × (length cleared ≡ length ps)
    × ((i : ℕ) → get_elem? cleared i ≡ (if id == i then some none else get_elem? ps i))

cleared_next :
    (id : ℕ) (p : Option ℕ) (ps cleared : List (Option ℕ))
    → ((i : ℕ) → get_elem? cleared i ≡ (if id == i then some none else get_elem? ps i))
    → (i : ℕ)
    → get_elem? (p ∷ cleared) i ≡ (if suc id == i then some none else get_elem? (p ∷ ps) i)
cleared_next id p ps cleared h zero = ground arith
cleared_next id p ps cleared h (suc i) = ground (arith, h i)

cleared_here :
    (p : Option ℕ) (ps : List (Option ℕ)) (i : ℕ)
    → get_elem? (none ∷ ps) i ≡ (if zero == i then some none else get_elem? (p ∷ ps) i)
cleared_here p ps zero = refl
cleared_here p ps (suc i) = ground arith

-- A file id in bounds is cleared.
pub tombstone-Cleared :
    (id : ℕ) (ps : List (Option ℕ)) {p : Option ℕ} → get_elem? ps id ≡ some p → Cleared id ps
unfolding tombstone
tombstone-Cleared id [] h = cc
tombstone-Cleared zero (p ∷ ps) h = (none ∷ ps, refl, refl, cleared_here p ps)
tombstone-Cleared (suc id) (p ∷ ps) h =
    let (cleared, e, n, at) = tombstone-Cleared id ps h in
    (p ∷ cleared, rw e refl, ap suc n, cleared_next id p ps cleared at)

pub contains-retain_paths :
    (p : ℕ) (removed ps : List ℕ)
    → contains p (retain_paths removed ps) ≡ (contains p ps && not (contains p removed))
unfolding retain_paths contains
contains-retain_paths p removed [] = refl
contains-retain_paths p removed (q ∷ ps) = elim (Bool-cases (q == p)) [
  | inl same ↦
      let e : q ≡ p = (==_iff q p).0 same in
      rw e (elim (Bool-cases (contains p removed)) [
        | inl gone ↦ rw gone (ground (arith, contains-retain_paths p removed ps))
        | inr kept ↦ rw kept (ground (arith, contains-retain_paths p removed ps))
      ])
  | inr other ↦ elim (Bool-cases (contains q removed)) [
    | inl gone ↦ rw gone (ground (arith, contains-retain_paths p removed ps))
    | inr kept ↦ rw kept (ground (arith, contains-retain_paths p removed ps))
  ]
]
