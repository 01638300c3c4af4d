-- ===== src/Prelude/Text.antt =====
-- Texts as lists of code points.
use Prim.Native.Nat.{ℕ}
use Prim.Native.Char.{code}
use Prim.Native.String.{String}
use mathlib.Core.Bool.{Bool, true, false, ◌&&◌}
use mathlib.Core.List.{List, [], ◌∷◌}
use mathlib.Core.Path.{◌≡◌, refl}
use mathlib.Core.Logic.{inl, inr}
use native.Mathlib.Omega.{arith}
use syntext.Prelude.Tests.{◌==◌, ==_iff, Bool-cases}

abbrev pub chars : String → List ℕ
chars String.[] = []
chars (String.◌∷◌ c s) = code c ∷ chars s

unfoldable pub eq_chars : List ℕ → List ℕ → Bool
eq_chars [] [] = true
eq_chars [] (y ∷ ys) = false
eq_chars (x ∷ xs) [] = false
eq_chars (x ∷ xs) (y ∷ ys) = x == y && eq_chars xs ys

pub eq_chars_refl : (xs : List ℕ) → eq_chars xs xs ≡ true
unfolding eq_chars
eq_chars_refl [] = refl
eq_chars_refl (x ∷ xs) = ground (arith, eq_chars_refl xs)

pub eq_chars-eq : (xs ys : List ℕ) → eq_chars xs ys ≡ true → xs ≡ ys
unfolding eq_chars
eq_chars-eq [] [] h = refl
eq_chars-eq [] (y ∷ ys) h = ground arith
eq_chars-eq (x ∷ xs) [] h = ground arith
eq_chars-eq (x ∷ xs) (y ∷ ys) h = elim (Bool-cases (x == y)) [
  | inl e ↦ ground (arith, ==_iff x y, eq_chars-eq xs ys)
  | inr e ↦ ground arith
]
