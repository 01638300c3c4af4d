-- ===== src/Hook/Posix.antt =====
-- How a POSIX shell reads what `shell_quote` of src/hook/core/shell.rs writes, in the quoting rules of
-- the standard: a reader of a line that has no other syntax than words, quotes and escapes.
use mathlib.Core.Option
use syntext.Prelude.{
  ℕ, ◌≡◌, refl, ap, ◌∙◌, Bool, true, not, ◌&&◌, inl, inr, Option, none, some, List, [], ◌∷◌, ◌++◌,
  map, All, append-nil, append_assoc, ◌==◌, ltb, contains, if◌then◌else◌, Bool-cases, ==_iff, arith,
}
use syntext.Prelude.Text.{chars}
use syntext.Hook.Shell.{Word, is_plain, all_chars, quoted_chars, shell_quote, render_raw_words}
use syntext.Hook.Quote.{plain-ne}

-- The chars that a shell may take for more than themselves outside of quotes: operators, quotes,
-- expansions, patterns, braces, comments and history.
abbrev special : List ℕ
special = chars "|&;<>()$`\"*?[]{}#~!^"

-- A visible ASCII char that stands for itself outside of quotes.
unfoldable pub inert : ℕ → Bool
unfolding contains
inert c = ltb 0x20 c && ltb c 0x7F && not (contains c special)

pub data Mode : Type 0 where
  bare quoted escaped : Mode

-- The word so far, where one has begun.
abbrev text_of : Option (List ℕ) → List ℕ
text_of none = []
text_of (some w) = w

abbrev with_char : ℕ → Option (List ℕ) → Option (List ℕ)
with_char c o = some (text_of o ++ (c ∷ []))

pub data Step : Type 0 where
  refused : Step
  goes : Mode → Option (List ℕ) → Step
  word_ends : List ℕ → Step

abbrev blank : Option (List ℕ) → Step
blank none = goes bare none
blank (some w) = word_ends w

-- A char: inside single quotes all stand for themselves but the closing quote; outside a backslash
-- quotes the next one, a blank ends the word, and a char that is not inert is refused.
unfoldable pub posix_step : Mode → Option (List ℕ) → ℕ → Step
unfolding inert
posix_step bare o c =
    if c == 0x27
    then goes quoted (some (text_of o))
    else if c == 0x5C
    then goes escaped (some (text_of o))
    else if c == 0x20
    then blank o
    else if inert c
    then goes bare (with_char c o)
    else refused
posix_step quoted o c = if c == 0x27 then goes bare o else goes quoted (with_char c o)
posix_step escaped o c = if c == 0x0A then refused else goes bare (with_char c o)

abbrev posix_end : Mode → Option (List ℕ) → Option (List (List ℕ))
posix_end bare none = some []
posix_end bare (some w) = some (w ∷ [])
posix_end quoted o = none
posix_end escaped o = none

-- The words of the line; none where it has other syntax or a quote is left open.
unfoldable pub posix_words : Mode → Option (List ℕ) → List ℕ → Option (List (List ℕ))
unfolding posix_step
posix_words m o [] = posix_end m o
posix_words m o (c ∷ cs) = elim (posix_step m o c) [
  | refused ↦ none
  | goes m' o' ↦ posix_words m' o' cs
  | word_ends w ↦ Option.map (◌∷◌ w) (posix_words bare none cs)
]

-- The raw form is read as the text, behind what has been read of the word.
abbrev pub PosixReads : List ℕ → List ℕ → Type 0
PosixReads raw text =
    (o : Option (List ℕ)) (rest : List ℕ)
    → posix_words bare o (raw ++ rest) ≡ posix_words bare (some (text_of o ++ text)) rest

plain-inert : (c : ℕ) → is_plain c ≡ true → inert c ≡ true
unfolding inert is_plain contains
plain-inert c p = ground arith

plain_taken :
    (o : Option (List ℕ)) (c : ℕ)
    → is_plain c ≡ true
    → posix_step bare o c ≡ goes bare (with_char c o)
unfolding posix_step is_plain
plain_taken o c p =
    rw (plain-ne c 0x27 p refl, plain-ne c 0x5C p refl, plain-ne c 0x20 p refl, plain-inert c p)
      refl

pub plain_step :
    (o : Option (List ℕ)) (c : ℕ) (cs : List ℕ)
    → is_plain c ≡ true
    → posix_words bare o (c ∷ cs) ≡ posix_words bare (with_char c o) cs
unfolding posix_words
plain_step o c cs p = rw (posix_words, plain_taken o c p) refl

pub plain_chars-posix :
    (w cs rest : List ℕ)
    → all_chars is_plain cs ≡ true
    → posix_words bare (some w) (cs ++ rest) ≡ posix_words bare (some (w ++ cs)) rest
unfolding all_chars
plain_chars-posix w [] rest p = rw (append-nil w) refl
plain_chars-posix w (c ∷ cs) rest p =
    let here : is_plain c ≡ true = ground arith in
    let later : all_chars is_plain cs ≡ true = ground arith in
    plain_step (some w) c (cs ++ rest) here
    ∙ (plain_chars-posix (w ++ (c ∷ [])) cs rest later ∙ rw (append_assoc w (c ∷ []) cs) refl)

quoted_chars-posix :
    (w cs rest : List ℕ)
    → posix_words quoted (some w) (quoted_chars cs ++ (0x27 ∷ rest))
      ≡ posix_words bare (some (w ++ cs)) rest
unfolding quoted_chars posix_words posix_step
quoted_chars-posix w [] rest = rw (append-nil w) refl
quoted_chars-posix w (c ∷ cs) rest = elim (Bool-cases (c == 0x27)) [
  | inl quote ↦
      let e : c ≡ 0x27 = (==_iff c 0x27).0 quote in
      rw e (quoted_chars-posix (w ++ (0x27 ∷ [])) cs rest ∙ rw (append_assoc w (0x27 ∷ []) cs) refl)
  | inr other ↦
      rw (other, posix_words, other)
        (quoted_chars-posix (w ++ (c ∷ [])) cs rest ∙ rw (append_assoc w (c ∷ []) cs) refl)
]

opens :
    (o : Option (List ℕ)) (cs : List ℕ)
    → posix_words bare o (0x27 ∷ cs) ≡ posix_words quoted (some (text_of o)) cs
unfolding posix_words posix_step
opens o cs = refl

pub shell_quote-PosixReads : (v : List ℕ) → PosixReads (shell_quote v) v
unfolding shell_quote
shell_quote-PosixReads [] o rest = unfold posix_words posix_step in rw (append-nil (text_of o)) refl
shell_quote-PosixReads (c ∷ cs) o rest = elim (Bool-cases (all_chars is_plain (c ∷ cs))) [
  | inl plain ↦
      let here : is_plain c ≡ true = unfold all_chars in ground arith in
      let later : all_chars is_plain cs ≡ true = unfold all_chars in ground arith in
      rw plain (
        plain_step o c (cs ++ rest) here
        ∙ (plain_chars-posix (text_of o ++ (c ∷ [])) cs rest later
            ∙ rw (append_assoc (text_of o) (c ∷ []) cs) refl))
  | inr other ↦
      rw (other, append_assoc (quoted_chars (c ∷ cs)) (0x27 ∷ []) rest)
        (opens o (quoted_chars (c ∷ cs) ++ (0x27 ∷ rest))
          ∙ quoted_chars-posix (text_of o) (c ∷ cs) rest)
]

plain_text-posix :
    (o : Option (List ℕ)) (cs : List ℕ) (k : ℕ) (rest : List ℕ)
    → all_chars is_plain cs ≡ true
    → is_plain k ≡ true
    → posix_words bare o (cs ++ (k ∷ rest))
      ≡ posix_words bare (some (text_of o ++ (cs ++ (k ∷ [])))) rest
plain_text-posix o [] k rest p q = plain_step o k rest q
plain_text-posix o (c ∷ cs) k rest p q =
    let here : is_plain c ≡ true = unfold all_chars in ground arith in
    let later : all_chars is_plain cs ≡ true = unfold all_chars in ground arith in
    plain_step o c (cs ++ (k ∷ rest)) here
    ∙ (plain_text-posix (with_char c o) cs k rest later q
        ∙ rw (append_assoc (text_of o) (c ∷ []) (cs ++ (k ∷ []))) refl)

-- A plain name, an equals sign and a quoted value.
pub pair-PosixReads :
    (name value : List ℕ)
    → all_chars is_plain name ≡ true
    → PosixReads (name ++ (b'=' ∷ shell_quote value)) (name ++ (b'=' ∷ value))
pair-PosixReads name value p o rest = rw (append_assoc name (b'=' ∷ shell_quote value) rest) (
    plain_text-posix o name b'=' (shell_quote value ++ rest) p (unfold is_plain in refl)
    ∙ (shell_quote-PosixReads value (some (text_of o ++ (name ++ (b'=' ∷ [])))) rest
        ∙ rw
            (
              append_assoc (text_of o) (name ++ (b'=' ∷ [])) value,
              append_assoc name (b'=' ∷ []) value,
            )
            refl))

abbrev pub WordReads : Word → Type 0
WordReads w = PosixReads w.raw w.text

blank_ends :
    (w rest : List ℕ)
    → posix_words bare (some w) (0x20 ∷ rest) ≡ Option.map (◌∷◌ w) (posix_words bare none rest)
unfolding posix_words posix_step
blank_ends w rest = refl

line_ends : (w : List ℕ) → posix_words bare (some w) [] ≡ some (w ∷ [])
unfolding posix_words
line_ends w = refl

-- Words that are read for their texts, joined by blanks, are read as these texts.
pub posix_words-render :
    (w : Word) (ws : List Word)
    → All WordReads (w ∷ ws)
    → posix_words bare none (render_raw_words (w ∷ ws)) ≡ some (map Word.text (w ∷ ws))
unfolding render_raw_words
posix_words-render w [] (h, t) = rw (append-nil w.raw) at (h none []) ∙ line_ends w.text
posix_words-render w (x ∷ ws) (h, hs) =
    h none (0x20 ∷ render_raw_words (x ∷ ws))
    ∙ (blank_ends w.text (render_raw_words (x ∷ ws))
        ∙ ap (Option.map (◌∷◌ w.text)) (posix_words-render x ws hs))
