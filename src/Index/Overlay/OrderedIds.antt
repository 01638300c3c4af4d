-- ===== src/Index/Overlay/OrderedIds.antt =====
-- The posting lists of the overlay are in ascending order, each id once, after every build.
use syntext.Prelude.{
  ℕ, ◌<◌, ◌≤◌, ◌≡◌, refl, false, not, ◌&&◌, ◌||◌, inl, inr, List, [], ◌∷◌, ◌++◌, leb, ◌==◌,
  contains, Bool-cases, ==_iff, arith,
}
use syntext.Index.Overlay.{
  insert_id, sort_unstable, is_next, dedup, sorted_ids, out_of_order_after, out_of_order,
  sort_if_needed, retain_others,
}

-- The ids of the list are at least `lo`, and ascend.
abbrev AtLeast : ℕ → List ℕ → Type 0
AtLeast lo [] = Unit {0}
AtLeast lo (x ∷ xs) = (lo ≤ x) × AtLeast x xs

abbrev After : ℕ → List ℕ → Type 0
After lo [] = Unit {0}
After lo (x ∷ xs) = (lo < x) × After x xs

-- Strictly ascending.
abbrev pub IsAscending : List ℕ → Type 0
IsAscending [] = Unit {0}
IsAscending (x ∷ xs) = After x xs

insert_id-AtLeast : (lo x : ℕ) (ys : List ℕ) → lo ≤ x → AtLeast lo ys → AtLeast lo (insert_id x ys)
unfolding insert_id
insert_id-AtLeast lo x [] h k = (h, tt)
insert_id-AtLeast lo x (y ∷ ys) h (k, ks) = elim (Bool-cases (leb x y)) [
  | inl first ↦ rw first (h, (ground arith, ks))
  | inr later ↦ rw later (k, insert_id-AtLeast y x ys (ground arith) ks)
]

sort_unstable-AtLeast : (xs : List ℕ) → AtLeast 0 (sort_unstable xs)
unfolding sort_unstable
sort_unstable-AtLeast [] = tt
sort_unstable-AtLeast (x ∷ xs) =
    insert_id-AtLeast 0 x (sort_unstable xs) (omega arith) (sort_unstable-AtLeast xs)

-- Behind an id that it starts with or that is less, the list without repetitions ascends.
After-dedup : (x : ℕ) (xs : List ℕ) → AtLeast x xs → is_next x xs ≡ false → After x (dedup xs)
unfolding dedup
After-dedup x [] h e = tt
After-dedup x (y ∷ []) (h, u) e = (ground arith, tt)
After-dedup x (y ∷ z ∷ ys) (h, (k, ks)) e = elim (Bool-cases (y == z)) [
  | inl same ↦ rw same (
      After-dedup x (z ∷ ys) (omega arith, ks)
        (let e' : y ≡ z = (==_iff y z).0 same in rw (← e') e))
  | inr other ↦ rw other (ground arith, After-dedup y (z ∷ ys) (k, ks) other)
]

dedup-IsAscending : (x : ℕ) (xs : List ℕ) → AtLeast x xs → IsAscending (dedup (x ∷ xs))
unfolding dedup
dedup-IsAscending x [] h = tt
dedup-IsAscending x (y ∷ ys) (h, hs) = elim (Bool-cases (x == y)) [
  | inl same ↦ rw same (dedup-IsAscending y ys hs)
  | inr other ↦ rw other (After-dedup x (y ∷ ys) (h, hs) other)
]

sorted-IsAscending : (xs : List ℕ) → AtLeast 0 xs → IsAscending (dedup xs)
sorted-IsAscending [] h = unfold dedup in tt
sorted-IsAscending (x ∷ xs) (h, hs) = dedup-IsAscending x xs hs

pub sorted_ids-IsAscending : (ids : List ℕ) → IsAscending (sorted_ids ids)
sorted_ids-IsAscending ids = sorted-IsAscending (sort_unstable ids) (sort_unstable-AtLeast ids)

ordered-After : (x : ℕ) (xs : List ℕ) → out_of_order_after x xs ≡ false → After x xs
unfolding out_of_order_after
ordered-After x [] h = tt
ordered-After x (y ∷ ys) h = (ground arith, ordered-After y ys (ground arith))

ordered-IsAscending : (ids : List ℕ) → out_of_order ids ≡ false → IsAscending ids
unfolding out_of_order
ordered-IsAscending [] h = tt
ordered-IsAscending (x ∷ xs) h = ordered-After x xs h

pub sort_if_needed-IsAscending : (ids : List ℕ) → IsAscending (sort_if_needed ids)
sort_if_needed-IsAscending ids = elim (Bool-cases (out_of_order ids)) [
  | inl yes_it_is ↦ rw yes_it_is (sorted_ids-IsAscending ids)
  | inr in_order ↦ rw in_order (ordered-IsAscending ids in_order)
]

insert_id-contains :
    (d x : ℕ) (ys : List ℕ) → contains d (insert_id x ys) ≡ ((x == d) || contains d ys)
unfolding insert_id contains
insert_id-contains d x [] = refl
insert_id-contains d x (y ∷ ys) = elim (Bool-cases (leb x y)) [
  | inl first ↦ rw first refl
  | inr later ↦ rw later (ground (arith, insert_id-contains d x ys))
]

sort_unstable-contains : (d : ℕ) (xs : List ℕ) → contains d (sort_unstable xs) ≡ contains d xs
unfolding sort_unstable contains
sort_unstable-contains d [] = refl
sort_unstable-contains d (x ∷ xs) =
    ground (arith, insert_id-contains d x (sort_unstable xs), sort_unstable-contains d xs)

pub dedup-contains : (d : ℕ) (xs : List ℕ) → contains d (dedup xs) ≡ contains d xs
unfolding dedup contains
dedup-contains d [] = refl
dedup-contains d (x ∷ []) = refl
dedup-contains d (x ∷ y ∷ ys) = elim (Bool-cases (x == y)) [
  | inl same ↦
      let e : x ≡ y = (==_iff x y).0 same in
      rw (same, e) (ground (arith, dedup-contains d (y ∷ ys)))
  | inr other ↦ rw other (ground (arith, dedup-contains d (y ∷ ys)))
]

pub sorted_ids-contains : (d : ℕ) (xs : List ℕ) → contains d (sorted_ids xs) ≡ contains d xs
sorted_ids-contains d xs =
    ground (arith, dedup-contains d (sort_unstable xs), sort_unstable-contains d xs)

pub sort_if_needed-contains : (d : ℕ) (xs : List ℕ) → contains d (sort_if_needed xs) ≡ contains d xs
sort_if_needed-contains d xs = elim (Bool-cases (out_of_order xs)) [
  | inl it_is ↦ rw it_is (sorted_ids-contains d xs)
  | inr in_order ↦ rw in_order refl
]

pub retain_others-contains :
    (d id : ℕ) (xs : List ℕ) → contains d (retain_others id xs) ≡ (contains d xs && not (id == d))
unfolding retain_others contains
retain_others-contains d id [] = refl
retain_others-contains d id (x ∷ xs) = elim (Bool-cases (x == id)) [
  | inl same ↦
      let e : x ≡ id = (==_iff x id).0 same in
      rw (same, e) (ground (arith, retain_others-contains d id xs))
  | inr other ↦ rw other (elim (Bool-cases (x == d)) [
    | inl here ↦
        let e : x ≡ d = (==_iff x d).0 here in ground (arith, retain_others-contains d id xs)
    | inr away ↦ ground (arith, retain_others-contains d id xs)
  ])
]

pub contains-append :
    (d : ℕ) (xs ys : List ℕ) → contains d (xs ++ ys) ≡ (contains d xs || contains d ys)
unfolding contains
contains-append d [] ys = refl
contains-append d (x ∷ xs) ys = ground (arith, contains-append d xs ys)
