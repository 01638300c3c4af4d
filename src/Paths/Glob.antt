-- ===== src/Paths/Glob.antt =====
-- src/path/filter.rs: `path_matches_glob` and what it calls. The index into a text or a pattern is
-- what stands from there on.
use syntext.Prelude.{
  ℕ, zero, suc, ◌+◌, Bool, true, false, not, ◌&&◌, ◌||◌, Option, none, some, List, [], ◌∷◌, ◌==◌,
  if◌then◌else◌, is_empty, length, drop, contains,
}
use syntext.Prelude.Text.{chars, eq_chars}
use syntext.Tokenizer.Boundaries.{to_ascii_lowercase}
use syntext.Paths.Names.{after_last, name_of, split_on}

-- The pattern behind the last star, and the text from where the star's match ends.
abbrev pub Star : Type 0
Star = Option (List ℕ × List ℕ)

-- `while pattern[pattern_idx] == b'*' { pattern_idx += 1 }`, and whether the pattern ends there.
unfoldable pub only_stars : List ℕ → Bool
only_stars [] = true
only_stars (d ∷ pattern) = d == b'*' && only_stars pattern

abbrev pub matches_byte : ℕ → ℕ → Bool
matches_byte d c = d == c || d == b'?'

abbrev pub Rounds : Type 0
Rounds = List ℕ → List ℕ → Star → Option Bool

abbrev pub go_back : Rounds → Star → Option Bool
go_back back none = some false
go_back back (some (pattern, text)) = back (drop 1 text) pattern (some (pattern, drop 1 text))

-- A round of the loop; `next` is the rounds after it, `back` those after a step back to the last star.
unfoldable pub glob_round : Rounds → Rounds → Rounds
unfolding only_stars
glob_round next back [] pattern star = some (only_stars pattern)
glob_round next back (c ∷ text) [] star = go_back back star
glob_round next back (c ∷ text) (d ∷ pattern) star =
    if matches_byte d c
    then next text pattern star
    else if d == b'*'
    then next (c ∷ text) pattern (some (pattern, c ∷ text))
    else go_back back star

-- The loop goes back to the last star `stars` times at most, and takes less than `steps` rounds
-- between, from `most` on; `none` is that these run out.
unfoldable pub glob_loop : ℕ → ℕ → ℕ → Rounds
unfolding glob_round
glob_loop most stars zero text pattern star = none
glob_loop most zero (suc steps) text pattern star =
    glob_round (glob_loop most zero steps) (λ t p s. none) text pattern star
glob_loop most (suc stars) (suc steps) text pattern star =
    glob_round (glob_loop most (suc stars) steps) (glob_loop most stars most) text pattern star

abbrev pub is_match : Option Bool → Bool
is_match none = false
is_match (some b) = b

unfoldable pub glob_matches_bytes : List ℕ → List ℕ → Bool
unfolding glob_loop
glob_matches_bytes text pattern =
    let most = length text + length pattern + 1 in
    is_match (glob_loop most (length text + 1) most text pattern none)

-- The parts of the path behind each `/`.
unfoldable pub any_part_matches : List ℕ → List ℕ → Bool
any_part_matches [] glob = false
any_part_matches (b ∷ path) glob =
    (b == b'/' && glob_matches_bytes path glob) || any_part_matches path glob

unfoldable pub path_glob_matches : List ℕ → List ℕ → Bool
unfolding glob_matches_bytes any_part_matches
path_glob_matches path glob = glob_matches_bytes path glob || any_part_matches path glob

unfoldable pub ascii_eq_ignore_case : List ℕ → List ℕ → Bool
unfolding to_ascii_lowercase
ascii_eq_ignore_case [] [] = true
ascii_eq_ignore_case [] (r ∷ right) = false
ascii_eq_ignore_case (l ∷ left) [] = false
ascii_eq_ignore_case (l ∷ left) (r ∷ right) =
    to_ascii_lowercase l == to_ascii_lowercase r && ascii_eq_ignore_case left right

abbrev pub is_extension : List ℕ → Option (List ℕ) → Bool
is_extension ext none = false
is_extension ext (some actual_ext) = ascii_eq_ignore_case actual_ext ext

unfoldable pub path_has_extension : List ℕ → List ℕ → Bool
unfolding after_last ascii_eq_ignore_case
path_has_extension path ext =
    is_extension ext (after_last b'.' (name_of path (after_last b'/' path)))

-- What stands before the last `sep`, where there is one.
unfoldable pub before_last : ℕ → List ℕ → Option (List ℕ)
before_last sep [] = none
before_last sep (b ∷ bytes) = elim (before_last sep bytes) [
  | none ↦ if b == sep then some [] else none
  | some rest ↦ some (b ∷ rest)
]

abbrev pub is_stem : List ℕ → Option (List ℕ) → Bool
is_stem word none = false
is_stem word (some stem) = eq_chars stem word

unfoldable pub any_component : List (List ℕ) → List ℕ → Bool
unfolding before_last eq_chars
any_component [] word = false
any_component (c ∷ cs) word =
    eq_chars c word || (is_stem word (before_last b'.' c) || any_component cs word)

unfoldable pub path_has_component : List ℕ → List ℕ → Bool
unfolding any_component split_on
path_has_component path word = any_component (split_on b'/' path) word

unfoldable pub starts_with : List ℕ → List ℕ → Bool
starts_with prefix [] = is_empty prefix
starts_with [] (b ∷ bytes) = true
starts_with (p ∷ prefix) (b ∷ bytes) = p == b && starts_with prefix bytes

unfoldable pub ends_with_slash : List ℕ → Bool
ends_with_slash [] = false
ends_with_slash (b ∷ []) = b == b'/'
ends_with_slash (b ∷ c ∷ bytes) = ends_with_slash (c ∷ bytes)

unfoldable pub any_glob_matches : List (List ℕ) → List ℕ → Bool
unfolding glob_matches_bytes
any_glob_matches [] glob = false
any_glob_matches (c ∷ cs) glob = glob_matches_bytes c glob || any_glob_matches cs glob

abbrev pub is_extension_glob : List ℕ → Bool
is_extension_glob glob = starts_with (chars "*.") glob && not (contains b'/' glob)

-- `find` is memmem's of the crate memchr: whether the needle stands in the text.
module _ (find : List ℕ → List ℕ → Bool) where
  abbrev pub matches_below : List ℕ → List ℕ → Bool
  matches_below path rest =
      if is_extension_glob rest
      then path_has_extension path (drop 2 rest)
      else if not (contains b'/' rest) && not (contains b'*' rest)
      then path_has_component path rest
      else find path rest

  abbrev pub matches_plain : List ℕ → List ℕ → Bool
  matches_plain path glob =
      if contains b'*' glob || contains b'?' glob
      then if contains b'/' glob
        then path_glob_matches path glob
        else any_glob_matches (split_on b'/' path) glob
      else if ends_with_slash glob
      then starts_with glob path || find path (b'/' ∷ glob)
      else if contains b'/' glob
      then find path glob
      else path_has_component path glob

  unfoldable pub path_matches_glob : List ℕ → List ℕ → Bool
  unfolding path_has_extension path_has_component path_glob_matches any_glob_matches starts_with
      ends_with_slash split_on contains
  path_matches_glob path glob =
      if is_extension_glob glob
      then path_has_extension path (drop 2 glob)
      else if starts_with (chars "**/") glob
      then matches_below path (drop 3 glob)
      else matches_plain path glob
