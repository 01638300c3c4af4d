-- ===== src/Tokenizer/Boundaries.antt =====
-- src/tokenizer/mod.rs, boundary detection. The trained table BIGRAM_WEIGHTS and the hash of the
-- crate xxhash_rust are parameters: `Tables`. A byte slice is a list of numbers.
use Prim.Native.Nat.{bit_or}
use syntext.Prelude.{
  contains, ℕ, suc, ◌+◌, ◌*◌, ◌^◌, Bool, true, ◌&&◌, ◌||◌, List, [], ◌∷◌, ◌++◌, map, length, leb,
  ◌==◌, if◌then◌else◌, in_range,
}

pub record Tables : Type 0 where
  pub bigram_weights : ℕ → ℕ
  pub xxh64 : List ℕ → ℕ → ℕ

abbrev pub boundary_threshold : ℕ
boundary_threshold = 28000

abbrev pub min_gram_len : ℕ
min_gram_len = 3

abbrev pub max_gram_len : ℕ
max_gram_len = 128

-- White space, brackets, punctuation, operators, quotes, sigils and the underscore.
abbrev delimiters : List ℕ
delimiters =
    b' ' ∷ 0x09 ∷ 0x0A ∷ 0x0D ∷ 0x0B ∷ 0x0C ∷ b'(' ∷ b')' ∷ b'{' ∷ b'}' ∷ b'[' ∷ b']' ∷ b'<' ∷ b'>'
    ∷ b'.' ∷ b',' ∷ b':' ∷ b';' ∷ b'=' ∷ b'+' ∷ b'-' ∷ b'*' ∷ b'/' ∷ b'%' ∷ b'!' ∷ b'&' ∷ b'|'
    ∷ b'^' ∷ b'~' ∷ 0x22 ∷ 0x27 ∷ 0x60 ∷ b'@' ∷ b'#' ∷ b'$' ∷ b'?' ∷ b'_' ∷ []

unfoldable pub is_forced_boundary : ℕ → Bool
unfolding contains
is_forced_boundary byte =
    contains byte delimiters || in_range 0x00 0x08 byte || in_range 0x0E 0x1F byte || byte == 0x7F

unfoldable pub to_ascii_lowercase : ℕ → ℕ
to_ascii_lowercase b = if in_range b'A' b'Z' b then b + 32 else b

abbrev pub is_ascii_lowercase : ℕ → Bool
is_ascii_lowercase b = in_range b'a' b'z' b

abbrev pub is_ascii_uppercase : ℕ → Bool
is_ascii_uppercase b = in_range b'A' b'Z' b

abbrev pub lowercase : List ℕ → List ℕ
lowercase = map to_ascii_lowercase

-- The loop `for i in 1..n` over the adjacent bytes: `left` is `bytes[i - 1]`, the list `bytes[i..]`.
unfoldable pub interior : (ℕ → ℕ → Bool) → ℕ → ℕ → List ℕ → List ℕ
interior cut i left [] = []
interior cut i left (right ∷ rest) =
    let later = interior cut (suc i) right rest in if cut left right then i ∷ later else later

unfoldable pub dedup_from : ℕ → List ℕ → List ℕ
dedup_from last [] = []
dedup_from last (x ∷ xs) = let rest = dedup_from x xs in if x == last then rest else x ∷ rest

-- `Vec::dedup`: of equal neighbours the first is kept.
unfoldable pub dedup : List ℕ → List ℕ
unfolding dedup_from
dedup [] = []
dedup (x ∷ xs) = x ∷ dedup_from x xs

-- Position 0, the interior positions, and `n` if there are bytes.
unfoldable pub boundaries : (ℕ → ℕ → Bool) → List ℕ → List ℕ
unfolding interior dedup
boundaries cut [] = dedup (0 ∷ [])
boundaries cut (b ∷ bytes) = dedup (0 ∷ (interior cut 1 b bytes ++ (suc (length bytes) ∷ [])))

abbrev pub is_camel : ℕ → ℕ → Bool
is_camel left right = is_ascii_lowercase left && is_ascii_uppercase right

unfoldable pub camel_case_boundaries : List ℕ → List ℕ
unfolding interior
camel_case_boundaries [] = []
camel_case_boundaries (b ∷ bytes) = interior is_camel 1 b bytes

module _ (t : Tables) where
  unfoldable pub is_rare : ℕ → ℕ → Bool
  is_rare left right = leb boundary_threshold (t.bigram_weights (bit_or (left * 2 ^ 8) right))

  -- The test of `with_boundary_positions_lower`.
  unfoldable pub cuts_lower : ℕ → ℕ → Bool
  unfolding is_rare
  cuts_lower left right =
      if is_forced_boundary right || is_forced_boundary left then true else is_rare left right

  -- The three tiers of `boundary_positions`.
  unfoldable pub cuts_cased : ℕ → ℕ → Bool
  unfolding is_rare
  cuts_cased left right =
      if is_forced_boundary right || is_forced_boundary left
      then true
      else if is_camel left right
      then true
      else is_rare (to_ascii_lowercase left) (to_ascii_lowercase right)

  unfoldable pub boundary_positions_lower : List ℕ → List ℕ
  unfolding cuts_lower boundaries
  boundary_positions_lower = boundaries cuts_lower

  unfoldable pub boundary_positions : List ℕ → List ℕ
  unfolding cuts_cased boundaries
  boundary_positions = boundaries cuts_cased
