-- ===== src/Hook/Quote.antt =====
-- `shell_quote` and `parse`: a quoted word is read back as it was.
use syntext.Prelude.{
  ℕ, ◌≡◌, refl, true, false, inl, inr, List, [], ◌∷◌, ◌++◌, map, append-nil, append_assoc, ◌==◌,
  is_empty, All, Bool-cases, ==_iff, ◌<◌, ◌∙◌, arith,
}
use syntext.Hook.Shell.{
  Word, ShellItem, ShellLine, ok, State, normal, single, Lexer, next, is_whitespace, is_plain,
  all_chars, after_digits, is_fd_redirection, normal_round, single_round, round, parse_from, parse,
  finish, finish_word, finish_command, close, quoted_chars, shell_quote, push_char,
  render_raw_words, empty_line,
}

-- The state after `raw` and `text` have been read in addition.
abbrev reading : State → List ℕ → List ℕ → Lexer → Lexer
reading st raw text l = record l { state = st; raw = l.raw ++ raw; text = l.text ++ text }

abbrev pub lexer : State → ShellLine → List Word → List ℕ → List ℕ → Lexer
lexer st line words raw text = record {
  state = st;
  line = line;
  words = words;
  raw = raw;
  text = text;
}

pub parse_from-next :
    (l l' : Lexer) (c : ℕ) (cs : List ℕ) (ahead : ℕ)
    → round l.state l c cs ≡ next l' ahead
    → parse_from 0 l (c ∷ cs) ≡ parse_from ahead l' cs
unfolding parse_from
parse_from-next l l' c cs ahead h = rw (h, parse_from) refl

pub plain-ne : (c k : ℕ) → is_plain c ≡ true → is_plain k ≡ false → (c == k) ≡ false
plain-ne c k p q = elim (Bool-cases (c == k)) [
  | inl same ↦ let e : c ≡ k = (==_iff c k).0 same in let no : is_plain k ≡ true = rw e at p in cc
  | inr other ↦ other
]

pub plain_bounds : (c : ℕ) → is_plain c ≡ true → (0x20 < c) × (c < 0x80)
unfolding is_plain
plain_bounds c p = ground arith

plain_no_space : (c : ℕ) → is_plain c ≡ true → is_whitespace c ≡ false
unfolding is_whitespace
plain_no_space c p = let (above, below) = plain_bounds c p in ground arith

pub plain_round :
    (l : Lexer) (c : ℕ) (cs : List ℕ)
    → is_plain c ≡ true
    → is_fd_redirection (c ∷ cs) ≡ false
    → normal_round l c cs ≡ next (push_char c l) 0
unfolding normal_round is_plain
plain_round l c cs p f =
    rw
      (
        plain_no_space c p,
        plain-ne c 0x27 p refl,
        plain-ne c 0x22 p refl,
        plain-ne c 0x5C p refl,
        plain-ne c b'$' p refl,
        plain-ne c 0x60 p refl,
        plain-ne c b'&' p refl,
        plain-ne c b'|' p refl,
        plain-ne c b';' p refl,
        plain-ne c b'>' p refl,
        plain-ne c b'<' p refl,
        f,
      )
      (ground arith)

plain_no_fd :
    (cs rest : List ℕ)
    → all_chars is_plain cs ≡ true
    → is_fd_redirection rest ≡ false
    → is_fd_redirection (cs ++ rest) ≡ false
unfolding all_chars is_plain is_fd_redirection after_digits
plain_no_fd [] rest p f = f
plain_no_fd (c ∷ cs) rest p f = ground (arith, plain_no_fd cs rest)

pub plain_chars :
    (line : ShellLine) (words : List Word) (raw text cs rest : List ℕ)
    → all_chars is_plain cs ≡ true
    → is_fd_redirection rest ≡ false
    → parse_from 0 (lexer normal line words raw text) (cs ++ rest)
      ≡ parse_from 0 (lexer normal line words (raw ++ cs) (text ++ cs)) rest
unfolding all_chars round
plain_chars line words raw text [] rest p f = rw (append-nil raw, append-nil text) refl
plain_chars line words raw text (c ∷ cs) rest p f =
    let here : is_plain c ≡ true = ground arith in
    let later : all_chars is_plain cs ≡ true = ground arith in
    parse_from-next (lexer normal line words raw text)
      (lexer normal line words (raw ++ (c ∷ [])) (text ++ (c ∷ []))) c (cs ++ rest) 0
      (plain_round (lexer normal line words raw text) c (cs ++ rest) here
        (plain_no_fd (c ∷ cs) rest p f))
    ∙ (plain_chars line words (raw ++ (c ∷ [])) (text ++ (c ∷ [])) cs rest later f
        ∙ rw (append_assoc raw (c ∷ []) cs, append_assoc text (c ∷ []) cs) refl)

-- From inside single quotes to behind the closing one.
quoted_body :
    (line : ShellLine) (words : List Word) (raw text cs rest : List ℕ)
    → parse_from 0 (lexer single line words raw text) (quoted_chars cs ++ (0x27 ∷ rest))
      ≡ parse_from 0
          (lexer normal line words (raw ++ (quoted_chars cs ++ (0x27 ∷ []))) (text ++ cs))
          rest
unfolding quoted_chars parse_from round single_round normal_round is_whitespace
quoted_body line words raw text [] rest = rw (append-nil text) refl
quoted_body line words raw text (c ∷ cs) rest = elim (Bool-cases (c == 0x27)) [
  | inl quote ↦
      let e : c ≡ 0x27 = (==_iff c 0x27).0 quote in
      rw
        (
          e,
          quoted_body line words
              ((((raw ++ (0x27 ∷ [])) ++ (0x5C ∷ [])) ++ (0x27 ∷ [])) ++ (0x27 ∷ []))
              (text ++ (0x27 ∷ [])) cs rest,
        )
        (simp append_assoc)
  | inr other ↦
      rw
        (
          other,
          parse_from,
          other,
          quoted_body line words (raw ++ (c ∷ [])) (text ++ (c ∷ [])) cs rest,
        )
        (simp append_assoc)
]

shell_quote-ne-nil : (v : List ℕ) → is_empty (shell_quote v) ≡ false
unfolding shell_quote
shell_quote-ne-nil [] = refl
shell_quote-ne-nil (c ∷ cs) = elim (Bool-cases (all_chars is_plain (c ∷ cs))) [
  | inl plain ↦ rw plain refl
  | inr other ↦ rw other refl
]

-- A quoted value, behind what has been read of the word.
pub quoted_chars_read :
    (line : ShellLine) (words : List Word) (raw text v rest : List ℕ)
    → is_fd_redirection rest ≡ false
    → parse_from 0 (lexer normal line words raw text) (shell_quote v ++ rest)
      ≡ parse_from 0 (lexer normal line words (raw ++ shell_quote v) (text ++ v)) rest
unfolding shell_quote
quoted_chars_read line words raw text [] rest f =
    unfold parse_from round normal_round single_round is_whitespace in
    rw (append_assoc raw (0x27 ∷ []) (0x27 ∷ []), append-nil text) refl
quoted_chars_read line words raw text (c ∷ cs) rest f =
    elim (Bool-cases (all_chars is_plain (c ∷ cs))) [
      | inl plain ↦ rw plain (plain_chars line words raw text (c ∷ cs) rest plain f)
      | inr other ↦
          rw
            (
              other,
              append_assoc (quoted_chars (c ∷ cs)) (0x27 ∷ []) rest,
              ← append_assoc raw (0x27 ∷ []) (quoted_chars (c ∷ cs) ++ (0x27 ∷ [])),
            )
            (parse_from-next (lexer normal line words raw text)
                (lexer single line words (raw ++ (0x27 ∷ [])) text) 0x27
                (quoted_chars (c ∷ cs) ++ (0x27 ∷ rest)) 0
                (unfold round normal_round is_whitespace in refl)
              ∙ quoted_body line words (raw ++ (0x27 ∷ [])) text (c ∷ cs) rest)
    ]

-- The lexer takes the raw form of the word for its text.
abbrev pub Reads : Word → Type 0
Reads w =
    (is_empty w.raw ≡ false)
    × ((line : ShellLine) (words : List Word) (rest : List ℕ)
        → is_fd_redirection rest ≡ false
        → parse_from 0 (lexer normal line words [] []) (w.raw ++ rest)
          ≡ parse_from 0 (lexer normal line words w.raw w.text) rest)

-- The word that `shell_quote` writes for a value.
abbrev pub as_word : List ℕ → Word
as_word v = record { text = v; raw = shell_quote v }

pub as_word-Reads : (v : List ℕ) → Reads (as_word v)
as_word-Reads v =
    (shell_quote-ne-nil v, λ line words rest f. quoted_chars_read line words [] [] v rest f)

finish_read :
    (line : ShellLine) (words : List Word) (w : Word)
    → Reads w
    → finish_word (lexer normal line words w.raw w.text)
      ≡ lexer normal line (words ++ (w ∷ [])) [] []
unfolding finish_word
finish_read line words w r = rw r.0 refl

is_empty_append : (ws : List Word) (w : Word) → is_empty (ws ++ (w ∷ [])) ≡ false
is_empty_append [] w = refl
is_empty_append (x ∷ ws) w = refl

abbrev pub with_command : ShellLine → List Word → ShellLine
with_command line words = record line { items = line.items ++ (ShellItem.command words ∷ []) }

read_end :
    (line : ShellLine) (words : List Word) (w : Word)
    → Reads w
    → parse_from 0 (lexer normal line words w.raw w.text) []
      ≡ ok (with_command line (words ++ (w ∷ [])))
unfolding parse_from finish close finish_command
read_end line words w r = rw (finish_read line words w r, is_empty_append words w) refl

read_blank :
    (line : ShellLine) (words : List Word) (w : Word) (rest : List ℕ)
    → Reads w
    → parse_from 0 (lexer normal line words w.raw w.text) (0x20 ∷ rest)
      ≡ parse_from 0 (lexer normal line (words ++ (w ∷ [])) [] []) rest
unfolding round normal_round is_whitespace
read_blank line words w rest r =
    parse_from-next (lexer normal line words w.raw w.text)
      (lexer normal line (words ++ (w ∷ [])) [] []) 0x20 rest 0
      (rw (finish_read line words w r) refl)

read_words :
    (line : ShellLine) (words : List Word) (w : Word) (ws : List Word)
    → All Reads (w ∷ ws)
    → parse_from 0 (lexer normal line words [] []) (render_raw_words (w ∷ ws))
      ≡ ok (with_command line (words ++ (w ∷ ws)))
unfolding render_raw_words
read_words line words w [] (r, t) =
    let read : parse_from 0 (lexer normal line words [] []) w.raw
        ≡ parse_from 0 (lexer normal line words w.raw w.text) [] =
      rw (append-nil w.raw) at (r.1 line words [] (unfold is_fd_redirection in refl)) in
    read ∙ read_end line words w r
read_words line words w (x ∷ ws) (r, rs) =
    let rest = render_raw_words (x ∷ ws) in
    r.1 line words (0x20 ∷ rest) (unfold is_fd_redirection in refl)
    ∙ (read_blank line words w rest r
        ∙ (read_words line (words ++ (w ∷ [])) x ws rs
            ∙ rw (append_assoc words (w ∷ []) (x ∷ ws)) refl))

-- Words that are read for their texts are read back from their raw forms, joined by blanks.
pub parse-render :
    (w : Word) (ws : List Word)
    → All Reads (w ∷ ws)
    → parse (render_raw_words (w ∷ ws)) ≡ ok (with_command empty_line (w ∷ ws))
unfolding parse
parse-render w ws h = read_words empty_line [] w ws h

pub as_words-Reads : (vs : List (List ℕ)) → All Reads (map as_word vs)
as_words-Reads [] = tt
as_words-Reads (v ∷ vs) = (as_word-Reads v, as_words-Reads vs)

-- Values that are quoted, whatever their chars, and joined by blanks are read back as one command
-- with exactly these words: no operator, redirection, expansion or background job comes of them.
pub parse-shell_quote :
    (v : List ℕ) (vs : List (List ℕ))
    → parse (render_raw_words (map as_word (v ∷ vs)))
      ≡ ok (with_command empty_line (map as_word (v ∷ vs)))
parse-shell_quote v vs = parse-render (as_word v) (map as_word vs) (as_words-Reads (v ∷ vs))
