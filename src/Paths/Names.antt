-- ===== src/Paths/Names.antt =====
-- src/path/mod.rs: the extension and the components of a path, in lower case. A path is its bytes.
use syntext.Prelude.{ℕ, Option, none, some, List, [], ◌∷◌, ◌==◌, if◌then◌else◌, is_empty}
use syntext.Tokenizer.Boundaries.{lowercase}

abbrev pub ascii_lower : List ℕ → List ℕ
ascii_lower = lowercase

-- What stands behind the last `sep`, where there is one.
unfoldable pub after_last : ℕ → List ℕ → Option (List ℕ)
after_last sep [] = none
after_last sep (b ∷ bytes) = elim (after_last sep bytes) [
  | none ↦ if b == sep then some bytes else none
  | some rest ↦ some rest
]

-- `rsplit(|&b| b == b'/').next()`.
abbrev pub name_of : List ℕ → Option (List ℕ) → List ℕ
name_of bytes none = bytes
name_of bytes (some name) = name

abbrev pub extension_of : Option (List ℕ) → Option (List ℕ)
extension_of none = none
extension_of (some ext) = if is_empty ext then none else some (ascii_lower ext)

unfoldable pub path_extension : List ℕ → Option (List ℕ)
unfolding after_last
path_extension bytes = extension_of (after_last b'.' (name_of bytes (after_last b'/' bytes)))

abbrev pub push_front : ℕ → List (List ℕ) → List (List ℕ)
push_front b [] = (b ∷ []) ∷ []
push_front b (part ∷ parts) = (b ∷ part) ∷ parts

-- `split(|&b| b == sep)`.
unfoldable pub split_on : ℕ → List ℕ → List (List ℕ)
split_on sep [] = [] ∷ []
split_on sep (b ∷ bytes) =
    let parts = split_on sep bytes in if b == sep then [] ∷ parts else push_front b parts

unfoldable pub lower_nonempty : List (List ℕ) → List (List ℕ)
lower_nonempty [] = []
lower_nonempty (c ∷ cs) =
    let rest = lower_nonempty cs in if is_empty c then rest else ascii_lower c ∷ rest

unfoldable pub path_components : List ℕ → List (List ℕ)
unfolding split_on lower_nonempty
path_components bytes = lower_nonempty (split_on b'/' bytes)
