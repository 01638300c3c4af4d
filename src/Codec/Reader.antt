-- ===== src/Codec/Reader.antt =====
-- A cursor over bytes: a reader takes what is left and returns a value with the rest.
use syntext.Prelude.{
  ℕ, zero, suc, ◌^◌, ◌<◌, ◌≡◌, refl, ap, false, ◌⊎◌, inl, inr, List, [], ◌∷◌, ◌++◌, append_assoc,
  ltb, if◌then◌else◌, length, length-append, take, drop, All, arith,
}
use syntext.Codec.Le.{le_bytes, from_le, length-le_bytes, from_le-le_bytes}

pub data Result (E A : Type 0) : Type 0 where
  ok : A → Result E A
  err : E → Result E A

pub Result-cases :
    {E A : Type 0} (r : Result E A) → ((e : E) × (r ≡ err e)) ⊎ ((a : A) × (r ≡ ok a))
Result-cases (ok a) = inr (a, refl)
Result-cases (err e) = inl (e, refl)

value_or : {E A : Type 0} → A → Result E A → A
value_or a (ok x) = x
value_or a (err e) = a

pub ok-injective : {E A : Type 0} (a b : A) → ◌≡◌ {A = Result E A} (ok a) (ok b) → a ≡ b
unfolding value_or
ok-injective a b h = ap (λ r. value_or a r) h

infixl 5 ◌>>=◌
abbrev pub ◌>>=◌ : {E A B : Type 0} → Result E A → (A → Result E B) → Result E B
ok a >>= f = f a
err e >>= f = err e

abbrev pub Reader : Type 0 → Type 0 → Type 0
Reader E A = List ℕ → Result E (A × List ℕ)

pub take_all : (xs rest : List ℕ) → take (length xs) (xs ++ rest) ≡ xs
take_all [] rest = refl
take_all (x ∷ xs) rest = ap (◌∷◌ x) (take_all xs rest)

pub drop_all : (xs rest : List ℕ) → drop (length xs) (xs ++ rest) ≡ rest
drop_all [] rest = refl
drop_all (x ∷ xs) rest = drop_all xs rest

module _ {E : Type 0} where
  -- `len` bytes, or the error of a truncated input.
  unfoldable pub read_bytes : E → ℕ → Reader E (List ℕ)
  read_bytes truncated len rest =
      if ltb (length rest) len then err truncated else ok (take len rest, drop len rest)

  -- An integer of `w` bytes.
  unfoldable pub read_le : E → ℕ → Reader E ℕ
  unfolding read_bytes
  read_le truncated w rest = read_bytes truncated w rest >>= λ p. ok (from_le p.0, p.1)

  -- `for _ in 0..count`
  unfoldable pub read_times : {A : Type 0} → Reader E A → ℕ → Reader E (List A)
  read_times item zero rest = ok ([], rest)
  read_times item (suc count) rest =
      item rest >>= λ p. read_times item count p.1 >>= λ q. ok (p.0 ∷ q.0, q.1)

  pub read_bytes-append :
      (e : E) (xs rest : List ℕ) → read_bytes e (length xs) (xs ++ rest) ≡ ok (xs, rest)
  unfolding read_bytes
  read_bytes-append e xs rest =
      let fits : ltb (length (xs ++ rest)) (length xs) ≡ false =
        ground (arith, length-append xs rest) in
      rw (fits, take_all xs rest, drop_all xs rest) refl

  pub read_le-append :
      (e : E) (w v : ℕ) (rest : List ℕ)
      → v < 256 ^ w
      → read_le e w (le_bytes w v ++ rest) ≡ ok (v, rest)
  unfolding read_le
  read_le-append e w v rest h =
      let whole : read_bytes e w (le_bytes w v ++ rest) ≡ ok (le_bytes w v, rest) =
        rw (length-le_bytes w v) at (read_bytes-append e (le_bytes w v) rest) in
      rw (whole, from_le-le_bytes w v h) refl

-- What `extend_from_slice` writes for each item.
unfoldable pub write_each : {A : Type 0} → (A → List ℕ) → List A → List ℕ
write_each write [] = []
write_each write (a ∷ items) = write a ++ write_each write items

-- Items that are each read back are read back in order.
pub read_times-write_each :
    {E A : Type 0} (Good : A → Type 0) (item : Reader E A) (write : A → List ℕ) (items : List A)
    (rest : List ℕ)
    → ((a : A) (rest : List ℕ) → Good a → item (write a ++ rest) ≡ ok (a, rest))
    → All Good items
    → read_times item (length items) (write_each write items ++ rest) ≡ ok (items, rest)
unfolding read_times write_each
read_times-write_each Good item write [] rest back h = refl
read_times-write_each Good item write (a ∷ items) rest back (h, hs) =
    rw
      (
        append_assoc (write a) (write_each write items) rest,
        back a (write_each write items ++ rest) h,
        read_times-write_each Good item write items rest back hs,
      )
      refl
