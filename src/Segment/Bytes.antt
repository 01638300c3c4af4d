-- ===== src/Segment/Bytes.antt =====
-- What the standard library gives for reading bytes at offsets, with 64-bit sizes.
use syntext.Prelude.{
  ℕ, ◌+◌, ◌-◌, ◌*◌, ◌^◌, ◌≡◌, refl, min, ◌&&◌, Option, none, some, List, ltb, leb, ◌==◌,
  if◌then◌else◌, length, take, drop, slice, arith,
}

infixl 5 ◌>>◌
abbrev pub ◌>>◌ : {A B : Type 0} → Option A → (A → Option B) → Option B
none >> f = none
some a >> f = f a

-- `bytes.get(a..b)`
unfoldable pub get : List ℕ → ℕ → ℕ → Option (List ℕ)
get bytes a b = if leb a b && leb b (length bytes) then some (slice bytes a b) else none

-- `bytes.get(a..)`
unfoldable pub get_from : List ℕ → ℕ → Option (List ℕ)
get_from bytes a = if leb a (length bytes) then some (drop a bytes) else none

-- `read_exact_at` of `len` bytes; nothing is read for an empty buffer.
unfoldable pub read_exact_at : List ℕ → ℕ → ℕ → Option (List ℕ)
read_exact_at file len offset =
    if leb (offset + len) (length file)
    then some (take len (drop offset file))
    else if len == 0
    then some (take 0 file)
    else none

unfoldable pub checked_add : ℕ → ℕ → Option ℕ
checked_add a b = if ltb (a + b) (2 ^ 64) then some (a + b) else none

unfoldable pub checked_mul : ℕ → ℕ → Option ℕ
checked_mul a b = if ltb (a * b) (2 ^ 64) then some (a * b) else none

unfoldable pub saturating_add : ℕ → ℕ → ℕ
saturating_add a b = min (a + b) (2 ^ 64 - 1)

pub bind-some :
    {A B : Type 0} (o : Option A) (f : A → Option B) (b : B)
    → (o >> f) ≡ some b
    → (a : A) × (o ≡ some a) × (f a ≡ some b)
bind-some none f b h = ground arith
bind-some (some a) f b h = (a, refl, h)
