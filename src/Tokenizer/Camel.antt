-- ===== src/Tokenizer/Camel.antt =====
-- The merged boundaries of `build_all` are the boundaries that `boundary_positions` finds: the
-- lowercased tiers and the camel-case tier together.
use mathlib.Core.Path.{fun_ext}
use syntext.Prelude.{
  ℕ, zero, suc, ◌+◌, ◌<◌, ◌≡◌, refl, sym, ap, ◌∙◌, inl, inr, Bool, true, false, ◌&&◌, ◌||◌, List,
  [], ◌∷◌, in_range, length, get_or, length-map, Bool-cases, arith,
}
use syntext.Tokenizer.Boundaries.{
  Tables, is_forced_boundary, to_ascii_lowercase, lowercase, is_camel, camel_case_boundaries,
  cuts_lower, cuts_cased, boundary_positions_lower, boundary_positions,
}
use syntext.Tokenizer.Grams.{merge_boundaries}
use syntext.Tokenizer.Positions.{positions, interior-positions, positions_miss, positions_none}
use syntext.Tokenizer.Merging.{merge_boundaries-positions}
use syntext.Tokenizer.Spans.{cut_at, boundaries-positions}

abbrev same : Bool → Bool → Bool
same true b = b
same false true = false
same false false = true

-- Lowercasing keeps the delimiter test of each byte below `limit`.
unfoldable lowercase_agrees : ℕ → Bool
lowercase_agrees zero = true
lowercase_agrees (suc limit) =
    let below = lowercase_agrees limit in
    same (is_forced_boundary (to_ascii_lowercase limit)) (is_forced_boundary limit) && below

lowercase_agrees_at :
    (limit b : ℕ)
    → b < limit
    → lowercase_agrees limit ≡ true
    → same (is_forced_boundary (to_ascii_lowercase b)) (is_forced_boundary b) ≡ true
unfolding lowercase_agrees
lowercase_agrees_at (suc limit) b below h = ground (arith, lowercase_agrees_at limit b)
lowercase_agrees_at zero b below h = absurd (omega arith)

upper_table : lowercase_agrees 91 ≡ true
unfolding lowercase_agrees is_forced_boundary to_ascii_lowercase
upper_table = refl

same→eq : (a b : Bool) → same a b ≡ true → a ≡ b
same→eq a b h = ground arith

-- Lowercasing a byte neither makes nor unmakes a delimiter.
pub forced-lowercase : (b : ℕ) → is_forced_boundary (to_ascii_lowercase b) ≡ is_forced_boundary b
unfolding to_ascii_lowercase
forced-lowercase b = elim (Bool-cases (in_range b'A' b'Z' b)) [
  | inl upper ↦ same→eq _ _ (lowercase_agrees_at 91 b (ground arith) upper_table)
  | inr other ↦ rw other
]

pub get_or-lowercase :
    (bytes : List ℕ) (i : ℕ) → get_or (lowercase bytes) i 0 ≡ to_ascii_lowercase (get_or bytes i 0)
get_or-lowercase [] i = unfold to_ascii_lowercase in refl
get_or-lowercase (b ∷ bytes) zero = refl
get_or-lowercase (b ∷ bytes) (suc i) = get_or-lowercase bytes i

get_or_end : (bytes : List ℕ) (d : ℕ) → get_or bytes (length bytes) d ≡ d
get_or_end [] d = refl
get_or_end (b ∷ bytes) d = get_or_end bytes d

-- Position `i` is a camel-case boundary.
unfoldable camel_at : List ℕ → ℕ → Bool
camel_at bytes zero = false
camel_at bytes (suc i) = is_camel (get_or bytes i 0) (get_or bytes (suc i) 0)

camel_at_end : (bytes : List ℕ) → camel_at bytes (length bytes) ≡ false
unfolding camel_at
camel_at_end [] = refl
camel_at_end (b ∷ bytes) = ground (arith, get_or_end bytes 0)

camel-positions :
    (bytes : List ℕ)
    → camel_case_boundaries bytes ≡ positions (camel_at bytes) 0 (suc (length bytes))
camel-positions [] = unfold camel_case_boundaries positions camel_at in refl
camel-positions (b ∷ bytes) =
    let f : ℕ → Bool = camel_at (b ∷ bytes) in
    let found : camel_case_boundaries (b ∷ bytes) ≡ positions f 1 (length bytes) =
      unfold camel_case_boundaries in
      interior-positions f is_camel 1 b bytes
        λ j h. let e : 1 + j ≡ suc j = omega arith in unfold camel_at in rw e in
    let all : positions f 1 (suc (length bytes)) ≡ positions f 0 (suc (suc (length bytes))) =
      unfold positions camel_at in refl in
    found
    ∙ positions_miss f 1 (length bytes) (suc (length bytes)) (omega arith)
        (camel_at_end (b ∷ bytes))
    ∙ all

or-false : (b : Bool) → (b || false) ≡ b
or-false b = ground arith

merge-nil : (f : ℕ → Bool) (i k : ℕ) → merge_boundaries (positions f i k) [] ≡ positions f i k
merge-nil f i k =
    ap (merge_boundaries (positions f i k)) (sym (positions_none i k))
    ∙ merge_boundaries-positions f (λ j. false) i k
    ∙ ap (λ g. positions g i k) (fun_ext (λ j. or-false (f j)))

module _ (t : Tables) where
  cuts-lowercase :
      (left right : ℕ)
      → (cuts_lower t (to_ascii_lowercase left) (to_ascii_lowercase right) || is_camel left right)
        ≡ cuts_cased t left right
  unfolding cuts_lower cuts_cased
  cuts-lowercase left right = ground (arith, forced-lowercase left, forced-lowercase right)

  cut_at-lowercase :
      (bytes : List ℕ) (i : ℕ)
      → (cut_at (cuts_lower t) (lowercase bytes) i || camel_at bytes i)
        ≡ cut_at (cuts_cased t) bytes i
  unfolding cut_at camel_at
  cut_at-lowercase bytes zero = refl
  cut_at-lowercase bytes (suc i) =
      rw
        (
          get_or-lowercase bytes i,
          get_or-lowercase bytes (suc i),
          length-map to_ascii_lowercase bytes,
        )
        (ground (arith, cuts-lowercase (get_or bytes i 0) (get_or bytes (suc i) 0)))

  pub merged-boundaries :
      (bytes : List ℕ)
      → merge_boundaries
          (boundary_positions_lower t (lowercase bytes))
          (camel_case_boundaries bytes)
        ≡ boundary_positions t bytes
  unfolding boundary_positions_lower boundary_positions
  merged-boundaries bytes =
      rw
        (
          boundaries-positions (cuts_lower t) (lowercase bytes),
          boundaries-positions (cuts_cased t) bytes,
          length-map to_ascii_lowercase bytes,
          camel-positions bytes,
          merge_boundaries-positions (cut_at (cuts_lower t) (lowercase bytes)) (camel_at bytes) 0
              (suc (length bytes)),
        )
        (ap (λ f. positions f 0 (suc (length bytes))) (fun_ext (cut_at-lowercase bytes)))

  -- With no camel-case boundary the two boundary lists are one.
  pub boundary_positions-lowercase :
      (bytes : List ℕ)
      → camel_case_boundaries bytes ≡ []
      → boundary_positions_lower t (lowercase bytes) ≡ boundary_positions t bytes
  boundary_positions-lowercase bytes h =
      let lower_only : merge_boundaries (boundary_positions_lower t (lowercase bytes)) []
          ≡ boundary_positions_lower t (lowercase bytes) =
        unfold boundary_positions_lower in
        rw (boundaries-positions (cuts_lower t) (lowercase bytes))
          (merge-nil (cut_at (cuts_lower t) (lowercase bytes)) 0 _) in
      sym lower_only ∙ (rw h at (merged-boundaries bytes))
