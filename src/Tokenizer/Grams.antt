-- ===== src/Tokenizer/Grams.antt =====
-- src/tokenizer/mod.rs, the grams of a document: `build_all` and its helpers.
use syntext.Prelude.{
  ℕ, ◌-◌, Bool, true, false, ◌&&◌, ◌||◌, Option, none, some, List, [], ◌∷◌, ◌++◌, ltb, leb, ◌==◌,
  if◌then◌else◌, in_range, is_empty, slice,
}
use syntext.Tokenizer.Boundaries.{
  Tables, min_gram_len, max_gram_len, lowercase, boundary_positions_lower, camel_case_boundaries,
}

-- The start and the end of a span.
abbrev pub Window : Type 0
Window = ℕ × ℕ

unfoldable pub windows_from : ℕ → List ℕ → List Window
windows_from start [] = []
windows_from start (x ∷ xs) = (start, x) ∷ windows_from x xs

-- `windows(2)`.
unfoldable pub windows : List ℕ → List Window
unfolding windows_from
windows [] = []
windows (x ∷ xs) = windows_from x xs

abbrev pub has_gram_len : Window → Bool
has_gram_len (start, end) = in_range min_gram_len max_gram_len (end - start)

abbrev pub is_last : Option ℕ → ℕ → Bool
is_last none next = false
is_last (some last) next = last == next

-- `if merged.last() != Some(next) { merged.push(next) }`, before what is merged later.
unfoldable pub push_merged : Option ℕ → ℕ → List ℕ → List ℕ
push_merged last next later = if is_last last next then later else next ∷ later

-- The loop of `merge_boundaries`; `last` is the last position merged so far.
unfoldable pub merge_from : Option ℕ → List ℕ → List ℕ → List ℕ
unfolding push_merged
merge_from last [] [] = []
merge_from last (b ∷ base) [] = push_merged last b (merge_from (some b) base [])
merge_from last [] (e ∷ extra) = push_merged last e (merge_from (some e) [] extra)
merge_from last (b ∷ base) (e ∷ extra) = elim (leb b e) [
  | true ↦ elim (b == e) [
    | true ↦ push_merged last b (merge_from (some b) base extra)
    | false ↦ push_merged last b (merge_from (some b) base (e ∷ extra))
  ]
  | false ↦ push_merged last e (merge_from (some e) (b ∷ base) extra)
]

unfoldable pub merge_boundaries : List ℕ → List ℕ → List ℕ
unfolding merge_from
merge_boundaries = merge_from none

-- The order of pairs, and their equality.
abbrev pub precedes : Window → Window → Bool
precedes (a, b) (c, d) = ltb a c || (a == c && ltb b d)

abbrev pub same_window : Window → Window → Bool
same_window (a, b) (c, d) = a == c && b == d

-- `while let Some(base) = current_base { if base_pair < merged_pair { next } else { break } }`
unfoldable pub skip_before : Window → List Window → List Window
skip_before w [] = []
skip_before w (b ∷ base) = if precedes b w then skip_before w base else b ∷ base

unfoldable pub starts_with : Window → List Window → Bool
starts_with w [] = false
starts_with w (b ∷ base) = same_window b w

module _ (t : Tables) where
  unfoldable pub gram_hash : List ℕ → ℕ
  gram_hash gram = t.xxh64 gram 0

  unfoldable pub push_gram : List ℕ → Window → List ℕ → List ℕ
  push_gram lower (start, end) later =
      if has_gram_len (start, end) then gram_hash (slice lower start end) ∷ later else later

  unfoldable pub grams_for_boundaries : List ℕ → List Window → List ℕ
  unfolding push_gram
  grams_for_boundaries lower [] = []
  grams_for_boundaries lower (w ∷ ws) = push_gram lower w (grams_for_boundaries lower ws)

  -- The spans of `merged` that are none of `base`; both are in ascending order.
  unfoldable pub new_grams_for_boundaries : List ℕ → List Window → List Window → List ℕ
  unfolding push_gram skip_before starts_with
  new_grams_for_boundaries lower base [] = []
  new_grams_for_boundaries lower base (w ∷ merged) =
      let rest = skip_before w base in
      let later = new_grams_for_boundaries lower rest merged in
      if starts_with w rest then later else push_gram lower w later

  unfoldable pub build_all : List ℕ → List ℕ
  unfolding boundary_positions_lower windows grams_for_boundaries camel_case_boundaries
      merge_boundaries new_grams_for_boundaries
  build_all [] = []
  build_all (b ∷ bytes) =
      let lower = lowercase (b ∷ bytes) in
      let lower_boundaries = boundary_positions_lower t lower in
      let hashes = grams_for_boundaries lower (windows lower_boundaries) in
      let camel_boundaries = camel_case_boundaries (b ∷ bytes) in
      let merged_boundaries = merge_boundaries lower_boundaries camel_boundaries in
      if is_empty camel_boundaries
      then hashes
      else hashes
        ++ new_grams_for_boundaries lower (windows lower_boundaries) (windows merged_boundaries)
