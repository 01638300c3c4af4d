-- ===== src/Codec/Accepted.antt =====
-- What the header test lets through.
use syntext.Prelude.{
  ℕ, zero, suc, ◌+◌, ◌<◌, ◌≤◌, ◌≡◌, refl, sym, ap, ◌∙◌, Bool, true, false, not, List, [], ◌∷◌, ◌++◌,
  ltb, ◌==◌, if◌then◌else◌, length, take, drop, length-drop, length-take, drop_twice, slice, All,
  arith, ==_iff,
}
use syntext.Prelude.Text.{eq_chars, eq_chars-eq}
use syntext.Codec.Le.{le_bytes, from_le, le_bytes-from_le}
use syntext.Codec.Reader.{ok, err, ok-injective}
use syntext.Codec.Roaring.{Format}
use syntext.Codec.Header.{SidecarError, format_version, header_len, open_body, with_header}

-- The bytes before a position and those from it on.
cut : (n : ℕ) (xs : List ℕ) → take n xs ++ drop n xs ≡ xs
cut zero xs = refl
cut (suc n) [] = refl
cut (suc n) (x ∷ xs) = ap (◌∷◌ x) (cut n xs)

abbrev pub Byte : ℕ → Type 0
Byte b = b < 256

take-All : (n : ℕ) (xs : List ℕ) → All Byte xs → All Byte (take n xs)
take-All zero xs h = tt
take-All (suc n) [] h = tt
take-All (suc n) (x ∷ xs) (h, hs) = (h, take-All n xs hs)

drop-All : (n : ℕ) (xs : List ℕ) → All Byte xs → All Byte (drop n xs)
drop-All zero xs h = h
drop-All (suc n) [] h = tt
drop-All (suc n) (x ∷ xs) (h, hs) = drop-All n xs hs

all_passed :
    (a b : List ℕ) (e₁ e₂ e₃ e₄ : SidecarError) (t₁ t₂ t₃ t₄ : Bool)
    → (if t₁
        then err e₁
        else if not t₂
        then err e₂
        else if not t₃
        then err e₃
        else if not t₄
        then err e₄
        else ok a)
      ≡ ok b
    → (t₁ ≡ false) × (t₂ ≡ true) × (t₃ ≡ true) × (t₄ ≡ true) × (a ≡ b)
all_passed a b e₁ e₂ e₃ e₄ true t₂ t₃ t₄ h = ground arith
all_passed a b e₁ e₂ e₃ e₄ false false t₃ t₄ h = ground arith
all_passed a b e₁ e₂ e₃ e₄ false true false t₄ h = ground arith
all_passed a b e₁ e₂ e₃ e₄ false true true false h = ground arith
all_passed a b e₁ e₂ e₃ e₄ false true true true h = (refl, refl, refl, refl, ok-injective a b h)

module _ (F : Format) where
  open F use {xxh64}

  tests_passed :
      (magic bytes body : List ℕ)
      → open_body F magic bytes ≡ ok body
      → (header_len ≤ length bytes)
        × (slice bytes 0 4 ≡ magic)
        × (from_le (slice bytes 4 8) ≡ format_version)
        × (from_le (slice bytes 8 16) ≡ xxh64 (drop header_len bytes) 0)
        × (drop header_len bytes ≡ body)
  unfolding open_body
  tests_passed magic bytes body h =
      let version = from_le (slice bytes 4 8) in
      let checksum = from_le (slice bytes 8 16) in
      let (long, same, known, whole, rest) =
        all_passed (drop header_len bytes) body SidecarError.too_short SidecarError.bad_magic
          (SidecarError.unsupported_version version) SidecarError.checksum_mismatch
          (ltb (length bytes) header_len) (eq_chars (slice bytes 0 4) magic)
          (version == format_version) (xxh64 (drop header_len bytes) 0 == checksum) h in
      (
        ground arith,
        eq_chars-eq (slice bytes 0 4) magic same,
        ground (arith, ==_iff version format_version),
        ground (arith, ==_iff (xxh64 (drop header_len bytes) 0) checksum),
        rest,
      )

  -- A part of the bytes, from an integer's value.
  integer :
      (bytes : List ℕ) (n w v : ℕ)
      → All Byte bytes
      → n + w ≤ length bytes
      → from_le (take w (drop n bytes)) ≡ v
      → drop n bytes ≡ le_bytes w v ++ drop (n + w) bytes
  integer bytes n w v bs h e =
      let len : length (take w (drop n bytes)) ≡ w =
        length-take w (drop n bytes) (omega (arith, length-drop n bytes)) in
      let back =
        le_bytes-from_le (take w (drop n bytes))
          (take-All w (drop n bytes) (drop-All n bytes bs)) in
      let here : le_bytes w v ≡ take w (drop n bytes) = rw (len, e) at back in
      rw (here, ← drop_twice n w bytes) (sym (cut w (drop n bytes)))

  -- The only bytes that pass are those that `with_header` writes for the body.
  pub open_body-accepts :
      (magic bytes body : List ℕ)
      → All Byte bytes
      → open_body F magic bytes ≡ ok body
      → bytes ≡ with_header F magic body
  unfolding with_header
  open_body-accepts magic bytes body bs h =
      let (long, same, known, whole, rest) = tests_passed magic bytes body h in
      let first : bytes ≡ magic ++ drop 4 bytes = rw (← same) (sym (cut 4 bytes)) in
      let second : drop 4 bytes ≡ le_bytes 4 format_version ++ drop 8 bytes =
        integer bytes 4 4 format_version bs (omega arith) known in
      let third : drop 8 bytes ≡ le_bytes 8 (xxh64 (drop 16 bytes) 0) ++ drop 16 bytes =
        integer bytes 8 8 (xxh64 (drop 16 bytes) 0) bs (omega arith) whole in
      let tail : drop 16 bytes ≡ body = rest in
      let third_body : drop 8 bytes ≡ le_bytes 8 (xxh64 body 0) ++ body = rw tail at third in
      first ∙ ap (λ x. magic ++ x) (second ∙ ap (λ x. le_bytes 4 format_version ++ x) third_body)
