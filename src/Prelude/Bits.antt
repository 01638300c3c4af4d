-- ===== src/Prelude/Bits.antt =====
-- Bits of words of any width, from the digit recursion that `bit_or` stands for.
use Prim.Native.Nat.{
  ℕ, zero, suc, ◌+◌, ◌*◌, ◌/◌, ◌^◌, ◌≤◌, ◌<◌, max, bit_or, digits, bit_or-bitwise,
}
use mathlib.Core.Path.{◌≡◌, ap, ◌∙◌}
use native.Mathlib.Omega.{arith}
use native.Mathlib.Nat.{pow-suc}

doubled : (b k : ℕ) → b * 2 ^ suc k ≡ b * 2 ^ k * 2
doubled b k = omega (arith, ap (λ t. b * t) (pow-suc 2 k))

or_digits : (k n a b : ℕ) → a ≤ n → a < 2 ^ k → digits (λ d. d) max n a (b * 2 ^ k) ≡ a + b * 2 ^ k
or_digits k zero zero b h l = omega arith
or_digits k zero (suc a) b h l = absurd (omega arith)
or_digits k (suc n) zero b h l = omega arith
or_digits zero (suc n) (suc a) b h l = absurd (omega arith)
or_digits (suc k) (suc n) (suc a) b h l =
    let even : (b * 2 ^ suc k) / 2 ≡ b * 2 ^ k = omega (arith, doubled b k) in
    let shorter : suc a / 2 < 2 ^ k = omega (arith, pow-suc 2 k) in
    rw even (omega (arith, doubled b k, or_digits k n (suc a / 2) b (omega arith) shorter))

-- `a | b << k` adds, where `a` has no bit from `k` on.
pub bit_or-shifted : (k a b : ℕ) → a < 2 ^ k → bit_or a (b * 2 ^ k) ≡ a + b * 2 ^ k
bit_or-shifted k a b l = bit_or-bitwise a (b * 2 ^ k) ∙ or_digits k a a b (omega arith) l
