-- ===== src/Prelude/Lists.antt =====
-- Lists measured and indexed by native numbers, under the library's names.
use Prim.Native.Nat.{ℕ, zero, suc, ◌+◌, ◌-◌, ◌≤◌, ◌<◌}
use mathlib.Core.Path.{◌≡◌, refl, sym, ap, ◌∙◌}
use mathlib.Core.Bool.{◌||◌, Bool, true, false}
use native.Mathlib.Decide.{dec_le}
use mathlib.Core.Option.{Option, none, some}
use mathlib.Core.List.{List, [], ◌∷◌, ◌++◌, map, Memᴰ}
use native.Mathlib.Omega.{arith}
use syntext.Prelude.Tests.{◌==◌}

module _ {ℓ} {A : Type ℓ} where
  abbrev pub length : List A → ℕ
  length [] = 0
  length (x ∷ xs) = suc (length xs)

  abbrev pub get_elem? : List A → ℕ → Option A
  get_elem? [] i = none
  get_elem? (x ∷ xs) zero = some x
  get_elem? (x ∷ xs) (suc i) = get_elem? xs i

  abbrev pub get_or : List A → ℕ → A → A
  get_or [] i d = d
  get_or (x ∷ xs) zero d = x
  get_or (x ∷ xs) (suc i) d = get_or xs i d

  abbrev pub take : ℕ → List A → List A
  take zero xs = []
  take (suc n) [] = []
  take (suc n) (x ∷ xs) = x ∷ take n xs

  abbrev pub drop : ℕ → List A → List A
  drop zero xs = xs
  drop (suc n) [] = []
  drop (suc n) (x ∷ xs) = drop n xs

  abbrev pub is_empty : List A → Bool
  is_empty [] = true
  is_empty (x ∷ xs) = false

  abbrev pub All {κ} : (A → Type κ) → List A → Type κ
  All P [] = Unit {κ}
  All P (x ∷ xs) = P x × All P xs

  pub length-append : (xs ys : List A) → length (xs ++ ys) ≡ length xs + length ys
  length-append [] ys = omega arith
  length-append (x ∷ xs) ys = omega (arith, length-append xs ys)

  pub get_or-append_right :
      (xs ys : List A) (i : ℕ) (d : A) → get_or (xs ++ ys) (length xs + i) d ≡ get_or ys i d
  get_or-append_right [] ys i d = ap (λ k. get_or ys k d) (omega arith)
  get_or-append_right (x ∷ xs) ys i d =
      let e : suc (length xs) + i ≡ suc (length xs + i) = omega arith in
      rw e (get_or-append_right xs ys i d)

  pub get_or-append_left :
      (xs ys : List A) (i : ℕ) (d : A) → i < length xs → get_or (xs ++ ys) i d ≡ get_or xs i d
  get_or-append_left [] ys i d h = absurd (omega arith)
  get_or-append_left (x ∷ xs) ys zero d h = refl
  get_or-append_left (x ∷ xs) ys (suc i) d h = get_or-append_left xs ys i d (omega arith)

  pub drop-append : (xs ys : List A) (i : ℕ) → drop (length xs + i) (xs ++ ys) ≡ drop i ys
  drop-append [] ys i = ap (λ k. drop k ys) (omega arith)
  drop-append (x ∷ xs) ys i =
      let e : suc (length xs) + i ≡ suc (length xs + i) = omega arith in rw e (drop-append xs ys i)

  pub take-append : (xs ys : List A) (n : ℕ) → n ≤ length xs → take n (xs ++ ys) ≡ take n xs
  take-append xs ys zero h = refl
  take-append [] ys (suc n) h = absurd (omega arith)
  take-append (x ∷ xs) ys (suc n) h = ap (◌∷◌ x) (take-append xs ys n (omega arith))

  pub length-drop : (n : ℕ) (xs : List A) → length (drop n xs) ≡ length xs - n
  length-drop zero xs = omega arith
  length-drop (suc n) [] = omega arith
  length-drop (suc n) (x ∷ xs) = omega (arith, length-drop n xs)

  pub take_nil : (m : ℕ) → take m [] ≡ []
  take_nil zero = refl
  take_nil (suc m) = refl

  drop_nil : (m : ℕ) → drop m [] ≡ []
  drop_nil zero = refl
  drop_nil (suc m) = refl

  pub drop_twice : (n m : ℕ) (xs : List A) → drop m (drop n xs) ≡ drop (n + m) xs
  drop_twice zero m xs = ap (λ k. drop k xs) (omega arith)
  drop_twice (suc n) m [] = drop_nil m ∙ sym (drop_nil (suc n + m))
  drop_twice (suc n) m (x ∷ xs) =
      let e : suc n + m ≡ suc (n + m) = omega arith in rw e (drop_twice n m xs)

  pub length-take : (n : ℕ) (xs : List A) → n ≤ length xs → length (take n xs) ≡ n
  length-take zero xs h = refl
  length-take (suc n) [] h = omega arith
  length-take (suc n) (x ∷ xs) h = ap suc (length-take n xs (omega arith))

  take_twice : (k n : ℕ) (xs : List A) → k ≤ n → take k (take n xs) ≡ take k xs
  take_twice zero n xs h = refl
  take_twice (suc k) zero xs h = absurd (omega arith)
  take_twice (suc k) (suc n) [] h = refl
  take_twice (suc k) (suc n) (x ∷ xs) h = ap (◌∷◌ x) (take_twice k n xs (omega arith))

  pub drop-take : (s n : ℕ) (xs : List A) → drop s (take n xs) ≡ take (n - s) (drop s xs)
  drop-take zero n xs = ap (λ k. take k xs) (omega arith)
  drop-take (suc s) zero xs = let e : 0 - suc s ≡ 0 = omega arith in rw e refl
  drop-take (suc s) (suc n) [] = sym (take_nil (suc n - suc s))
  drop-take (suc s) (suc n) (x ∷ xs) =
      let e : suc n - suc s ≡ n - s = omega arith in rw e (drop-take s n xs)

  pub drop-append_le :
      (xs ys : List A) (i : ℕ) → i ≤ length xs → drop i (xs ++ ys) ≡ drop i xs ++ ys
  drop-append_le xs ys zero h = refl
  drop-append_le [] ys (suc i) h = absurd (omega arith)
  drop-append_le (x ∷ xs) ys (suc i) h = drop-append_le xs ys i (omega arith)

  -- A slice `xs[s..e]`.
  abbrev pub slice : List A → ℕ → ℕ → List A
  slice xs s e = take (e - s) (drop s xs)

  -- A slice that ends within the first `n` items, and one of the items from `a` on.
  pub slice-take : (xs : List A) (n s e : ℕ) → e ≤ n → slice (take n xs) s e ≡ slice xs s e
  slice-take xs n s e h =
      rw (drop-take s n xs) (take_twice (e - s) (n - s) (drop s xs) (omega arith))

  pub slice-drop : (xs : List A) (a s e : ℕ) → slice (drop a xs) s e ≡ slice xs (a + s) (a + e)
  slice-drop xs a s e =
      let n : (a + e) - (a + s) ≡ e - s = omega arith in rw (drop_twice a s xs, n) refl

  -- The slice of a part of a list stands in the whole, shifted by what precedes it.
  pub slice-within :
      (a m c : List A) (s e : ℕ)
      → e ≤ length m
      → slice (a ++ (m ++ c)) (length a + s) (length a + e) ≡ slice m s e
  slice-within a m c s e h =
      let shift : (length a + e) - (length a + s) ≡ e - s = omega arith in
      rw (shift, drop-append a (m ++ c) s)
        (elim (dec_le s (length m)) [
          | yes p ↦
              rw (drop-append_le m c s p)
                (take-append (drop s m) c (e - s) (omega (arith, length-drop s m)))
          | no p ↦ let z : e - s ≡ 0 = omega arith in rw z
        ])

  pub All-of_mem {κ} : (P : A → Type κ) {x : A} (xs : List A) → All P xs → Memᴰ x xs → P x
  All-of_mem P [] h m = elim m [ ]
  All-of_mem P (x ∷ xs) h (Memᴰ.head e) = rw e h.0
  All-of_mem P (x ∷ xs) h (Memᴰ.tail m) = All-of_mem P xs h.1 m

unfoldable pub contains : ℕ → List ℕ → Bool
contains b [] = false
contains b (x ∷ xs) = x == b || contains b xs

pub mem→contains : (b : ℕ) (xs : List ℕ) → Memᴰ b xs → contains b xs ≡ true
unfolding contains
mem→contains b [] m = elim m [ ]
mem→contains b (x ∷ xs) (Memᴰ.head e) = ground arith
mem→contains b (x ∷ xs) (Memᴰ.tail m) = ground (arith, mem→contains b xs m)

module _ {ℓ κ} {A : Type ℓ} {B : Type κ} where
  pub length-map : (f : A → B) (xs : List A) → length (map f xs) ≡ length xs
  length-map f [] = refl
  length-map f (x ∷ xs) = ap suc (length-map f xs)
