-- ===== src/Hook/Segment.antt =====
-- What a rewritten segment is read as: its environment, the program and the arguments.
use syntext.Prelude.{ℕ, ◌≡◌, none, some, List, ◌∷◌, ◌++◌, ◌⊎◌, map}
use syntext.Hook.Shell.{Word, before_equals}
use syntext.Hook.Quote.{as_word}
use syntext.Hook.Args.{split_once}
use syntext.Hook.Rewrite.{quote_env}

-- The two ways in which the code splits a text at its first equals sign.
abbrev Splits : List ℕ → Type 0
Splits t =
    (before_equals t ≡ none)
    ⊎ ((name : List ℕ) × (value : List ℕ) × (before_equals t ≡ some name)
        × (split_once t ≡ (name, some value))
        × (t ≡ name ++ (b'=' ∷ value)))

-- The word that `quote_env_assignment` writes.
abbrev pub env_word : Word → Word
env_word w = record { text = w.text; raw = quote_env w }

-- The words that a rewritten segment stands for.
abbrev pub segment_words : List Word → List ℕ → List (List ℕ) → List Word
segment_words env st_program args = map env_word env ++ (as_word st_program ∷ map as_word args)
