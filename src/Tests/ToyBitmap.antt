-- ===== src/Tests/ToyBitmap.antt =====
-- Sets of ids as lists, in place of the crate roaring.
use syntext.Prelude.{
  ℕ, ◌+◌, ◌*◌, ◌≡◌, refl, Bool, true, false, not, ◌&&◌, ◌||◌, List, [], ◌∷◌, ◌++◌, contains, ◌==◌,
  if◌then◌else◌, is_empty, length, Bool-cases, inl, inr, arith,
}
use syntext.Index.Bitmap.{RoaringBitmap}

unfoldable pub keep_if : (ℕ → Bool) → List ℕ → List ℕ
keep_if p [] = []
keep_if p (x ∷ xs) = let rest = keep_if p xs in if p x then x ∷ rest else rest

pub contains-keep_if :
    (p : ℕ → Bool) (xs : List ℕ) (d : ℕ) → contains d (keep_if p xs) ≡ (contains d xs && p d)
unfolding keep_if contains
contains-keep_if p [] d = refl
contains-keep_if p (x ∷ xs) d = elim (Bool-cases (x == d)) [
  | inl same ↦ let e : x ≡ d = ground arith in rw e (ground (arith, contains-keep_if p xs d))
  | inr other ↦ ground (arith, contains-keep_if p xs d)
]

pub contains-append :
    (xs ys : List ℕ) (d : ℕ) → contains d (xs ++ ys) ≡ (contains d xs || contains d ys)
unfolding contains
contains-append [] ys d = refl
contains-append (x ∷ xs) ys d = ground (arith, contains-append xs ys d)

pub none_contained : (xs : List ℕ) (d : ℕ) → is_empty xs ≡ true → contains d xs ≡ false
unfolding contains
none_contained [] d h = refl
none_contained (x ∷ xs) d h = cc

unfoldable pub toy_bitmap : RoaringBitmap
unfolding keep_if contains
toy_bitmap = record {
  Bitmap = List ℕ;
  new = [];
  insert = λ a b. a ∷ b;
  remove = λ a b. keep_if (λ x. not (a == x)) b;
  extend = λ ids b. b ++ ids;
  intersect = λ a b. keep_if (λ x. contains x b) a;
  union = λ a b. a ++ b;
  subtract = λ a b. keep_if (λ x. not (contains x b)) a;
  has = λ b d. contains d b;
  no_ids = λ b. is_empty b;
  len = λ b. length b;
  iter = λ b. b;
  serialized_size = λ b. 8 + 2 * length b;
  has-new = λ d. refl;
  has-insert = λ a b d. refl;
  has-remove = λ a b d. contains-keep_if (λ x. not (a == x)) b d;
  has-extend = λ ids b d. contains-append b ids d;
  has-intersect = λ a b d. contains-keep_if (λ x. contains x b) a d;
  has-union = λ a b d. contains-append a b d;
  has-subtract = λ a b d. contains-keep_if (λ x. not (contains x b)) a d;
  no_ids_has = λ b d h. none_contained b d h;
  contains-iter = λ b d. refl;
}
