-- ===== src/Tokenizer/Covering.antt =====
-- src/tokenizer/covering.rs: the grams that a query may require of a document.
use syntext.Prelude.{
  ℕ, ◌-◌, Bool, ◌&&◌, ◌||◌, Option, none, some, List, [], ◌∷◌, ltb, if◌then◌else◌, length, get_or,
  is_empty, slice,
}
use syntext.Tokenizer.Boundaries.{
  Tables, min_gram_len, is_forced_boundary, lowercase, boundary_positions_lower, boundary_positions,
}
use syntext.Tokenizer.Grams.{Window, has_gram_len, windows, gram_hash}

pub record CoveringSet : Type 0 where
  pub required : List ℕ
  pub optional : List ℕ

-- A boundary at position 0 or `len` is real only beside a forced boundary byte.
abbrev start_is_real : List ℕ → ℕ → Bool
start_is_real lower start = ltb 0 start || is_forced_boundary (get_or lower 0 0)

abbrev end_is_real : List ℕ → ℕ → Bool
end_is_real lower end =
    ltb end (length lower) || is_forced_boundary (get_or lower (length lower - 1) 0)

unfoldable pub is_anchored : List ℕ → Window → Bool
is_anchored lower (start, end) = start_is_real lower start && end_is_real lower end

abbrev pub is_empty_set : CoveringSet → Bool
is_empty_set s = is_empty s.required && is_empty s.optional

module _ (t : Tables) where
  -- One round of the loop of `build_covering`, before what the later rounds push.
  unfoldable pub push_tier : List ℕ → Window → CoveringSet → CoveringSet
  unfolding is_anchored
  push_tier lower (start, end) later =
      let hash = gram_hash t (slice lower start end) in
      if is_anchored lower (start, end)
      then record later { required = hash ∷ later.required }
      else record later { optional = hash ∷ later.optional }

  unfoldable pub classify : List ℕ → List Window → CoveringSet
  unfolding push_tier
  classify lower [] = record { required = []; optional = [] }
  classify lower (w ∷ ws) =
      let later = classify lower ws in if has_gram_len w then push_tier lower w later else later

  unfoldable pub build_covering : List ℕ → Option CoveringSet
  unfolding classify windows boundary_positions_lower
  build_covering input =
      let lower = lowercase input in
      let covering = classify lower (windows (boundary_positions_lower t lower)) in
      if ltb (length input) min_gram_len
      then none
      else if is_empty_set covering
      then none
      else some covering

  unfoldable pub anchored_grams : List ℕ → List Window → List ℕ
  unfolding is_anchored
  anchored_grams lower [] = []
  anchored_grams lower (w ∷ ws) =
      let later = anchored_grams lower ws in
      if has_gram_len w && is_anchored lower w
      then gram_hash t (slice lower w.0 w.1) ∷ later
      else later

  unfoldable pub build_covering_inner : List ℕ → Option (List ℕ)
  unfolding anchored_grams windows boundary_positions
  build_covering_inner input =
      let hashes = anchored_grams (lowercase input) (windows (boundary_positions t input)) in
      if ltb (length input) min_gram_len
      then none
      else if is_empty hashes
      then none
      else some hashes
