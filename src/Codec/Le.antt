-- ===== src/Codec/Le.antt =====
-- `to_le_bytes` and `from_le_bytes` of the standard library, for integers of `w` bytes.
use native.Mathlib.Nat.{pow-suc}
use syntext.Prelude.{
  ℕ, zero, suc, ◌+◌, ◌*◌, ◌/◌, ◌%◌, ◌^◌, ◌<◌, ◌≡◌, refl, ap, List, [], ◌∷◌, length, All, arith,
}

unfoldable pub le_bytes : ℕ → ℕ → List ℕ
le_bytes zero v = []
le_bytes (suc w) v = v % 256 ∷ le_bytes w (v / 256)

unfoldable pub from_le : List ℕ → ℕ
from_le [] = 0
from_le (b ∷ bs) = b + 256 * from_le bs

pub length-le_bytes : (w v : ℕ) → length (le_bytes w v) ≡ w
unfolding le_bytes
length-le_bytes zero v = refl
length-le_bytes (suc w) v = ap suc (length-le_bytes w (v / 256))

pub from_le-le_bytes : (w v : ℕ) → v < 256 ^ w → from_le (le_bytes w v) ≡ v
unfolding le_bytes from_le
from_le-le_bytes zero v h = omega arith
from_le-le_bytes (suc w) v h =
    let small : v / 256 < 256 ^ w = omega (arith, pow-suc 256 w) in
    omega (arith, from_le-le_bytes w (v / 256) small)

pub le_bytes-from_le :
    (bs : List ℕ) → All (λ b. b < 256) bs → le_bytes (length bs) (from_le bs) ≡ bs
unfolding le_bytes from_le
le_bytes-from_le [] h = refl
le_bytes-from_le (b ∷ bs) (h, hs) =
    let low : (b + 256 * from_le bs) % 256 ≡ b = omega arith in
    let high : (b + 256 * from_le bs) / 256 ≡ from_le bs = omega arith in
    rw (low, high) (ap (◌∷◌ b) (le_bytes-from_le bs hs))
