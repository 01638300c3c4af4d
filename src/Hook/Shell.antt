-- ===== src/Hook/Shell.antt =====
-- src/hook/core/shell.rs: the lexer of shell commands and the quoting of words. A char is its code
-- point; the loop over `chars[i]` is a recursion on `chars[i..]`, with a count of the chars that the
-- last round took ahead.
use syntext.Prelude.{
  ℕ, zero, suc, ◌-◌, Bool, true, false, ◌&&◌, ◌||◌, Option, none, some, List, [], ◌∷◌, ◌++◌, ◌==◌,
  in_range, if◌then◌else◌, is_empty, length, drop,
}

pub record Word : Type 0 where
  pub text : List ℕ
  pub raw : List ℕ

pub data ShellItem : Type 0 where
  command : List Word → ShellItem
  op : List ℕ → ShellItem

pub record ShellLine : Type 0 where
  pub items : List ShellItem
  pub has_pipe : Bool
  pub has_redirection : Bool
  pub has_expansion : Bool
  pub has_background : Bool

pub data ShellParseError : Type 0 where
  trailing_escape unclosed_quote : ShellParseError

pub data State : Type 0 where
  normal single double : State

pub data Parsed : Type 0 where
  ok : ShellLine → Parsed
  err : ShellParseError → Parsed

-- The variables of `parse`.
pub record Lexer : Type 0 where
  pub state : State
  pub line : ShellLine
  pub words : List Word
  pub raw : List ℕ
  pub text : List ℕ

-- `char::is_whitespace`
unfoldable pub is_whitespace : ℕ → Bool
is_whitespace c =
    in_range 0x09 0x0D c
    || c == 0x20
    || c == 0x85
    || c == 0xA0
    || c == 0x1680
    || in_range 0x2000 0x200A c
    || c == 0x2028
    || c == 0x2029
    || c == 0x202F
    || c == 0x205F
    || c == 0x3000

abbrev pub is_ascii_digit : ℕ → Bool
is_ascii_digit c = in_range b'0' b'9' c

abbrev pub is_ascii_alphabetic : ℕ → Bool
is_ascii_alphabetic c = in_range b'A' b'Z' c || in_range b'a' b'z' c

abbrev pub is_ascii_alphanumeric : ℕ → Bool
is_ascii_alphanumeric c = is_ascii_alphabetic c || is_ascii_digit c

-- `chars.get(i) == Some(&c)`
abbrev pub starts_with : ℕ → List ℕ → Bool
starts_with c [] = false
starts_with c (x ∷ xs) = x == c

unfoldable pub finish_word : Lexer → Lexer
finish_word l = if is_empty l.raw then l else record l {
  words = l.words ++ (record { text = l.text; raw = l.raw } ∷ []);
  raw = [];
  text = [];
}

abbrev pub push_item : ShellItem → Lexer → Lexer
push_item item l = record l { line = record l.line { items = l.line.items ++ (item ∷ []) } }

unfoldable pub finish_command : Lexer → Lexer
finish_command l =
    if is_empty l.words then l else record (push_item (ShellItem.command l.words) l) { words = [] }

-- `finish_word` and `finish_command`, which come before each operator.
unfoldable pub close : Lexer → Lexer
unfolding finish_word finish_command
close l = finish_command (finish_word l)

abbrev pub push_char : ℕ → Lexer → Lexer
push_char c l = record l { raw = l.raw ++ (c ∷ []); text = l.text ++ (c ∷ []) }

abbrev pub push_raw : ℕ → Lexer → Lexer
push_raw c l = record l { raw = l.raw ++ (c ∷ []) }

abbrev pub fd_digit : List ℕ → List ℕ
fd_digit [] = []
fd_digit (d ∷ ds) = if is_ascii_digit d then d ∷ [] else []

-- The operator from its first char on; `next` is as many chars later.
unfoldable pub redirection_operator : List ℕ → List ℕ
redirection_operator [] = []
redirection_operator (c ∷ cs) =
    let doubled = starts_with c cs in
    let rest = if doubled then drop 1 cs else cs in
    let first = if doubled then c ∷ c ∷ [] else c ∷ [] in
    if starts_with b'&' rest then first ++ (b'&' ∷ fd_digit (drop 1 rest)) else first

unfoldable pub leading_digits : List ℕ → List ℕ
leading_digits [] = []
leading_digits (c ∷ cs) = let rest = leading_digits cs in if is_ascii_digit c then c ∷ rest else []

unfoldable pub after_digits : List ℕ → List ℕ
after_digits [] = []
after_digits (c ∷ cs) = let rest = after_digits cs in if is_ascii_digit c then rest else c ∷ cs

unfoldable pub is_fd_redirection : List ℕ → Bool
unfolding after_digits
is_fd_redirection chars =
    starts_with b'>' (after_digits chars) || starts_with b'<' (after_digits chars)

unfoldable pub fd_redirection_operator : List ℕ → List ℕ
unfolding leading_digits after_digits redirection_operator
fd_redirection_operator chars = leading_digits chars ++ redirection_operator (after_digits chars)

-- A round: the new state with the number of chars taken beyond the first, or an error.
pub data Round : Type 0 where
  next : Lexer → ℕ → Round
  fail : ShellParseError → Round

abbrev pub operator : List ℕ → Lexer → Lexer
operator o l = push_item (ShellItem.op o) (close l)

abbrev pub redirected : Lexer → Lexer
redirected l = record l { line = record l.line { has_redirection = true } }

abbrev pub expanded : Lexer → Lexer
expanded l = record l { line = record l.line { has_expansion = true } }

abbrev pub piped : Lexer → Lexer
piped l = record l { line = record l.line { has_pipe = true } }

abbrev pub backgrounded : Lexer → Lexer
backgrounded l = record l { line = record l.line { has_background = true } }

-- A backslash outside of quotes.
abbrev pub escape : Lexer → List ℕ → Round
escape l [] = fail trailing_escape
escape l (c ∷ cs) = next (push_char c (push_raw 0x5C l)) 1

unfoldable pub normal_round : Lexer → ℕ → List ℕ → Round
unfolding is_whitespace finish_word close redirection_operator is_fd_redirection
    fd_redirection_operator
normal_round l c cs =
    if is_whitespace c
    then next (finish_word l) 0
    else if c == 0x27
    then next (record (push_raw c l) { state = single }) 0
    else if c == 0x22
    then next (record (push_raw c l) { state = double }) 0
    else if c == 0x5C
    then escape l cs
    else if c == b'$' || c == 0x60
    then next (push_char c (expanded l)) 0
    else if c == b'&' && starts_with b'&' cs
    then next (operator (b'&' ∷ b'&' ∷ []) l) 1
    else if c == b'&'
    then next (backgrounded (close l)) 0
    else if c == b'|' && starts_with b'|' cs
    then next (operator (b'|' ∷ b'|' ∷ []) l) 1
    else if c == b'|'
    then next (piped (operator (b'|' ∷ []) l)) 0
    else if c == b';'
    then next (operator (b';' ∷ []) l) 0
    else if c == b'>' || c == b'<'
    then (let o = redirection_operator (c ∷ cs) in next (redirected (operator o l)) (length o - 1))
    else if is_empty l.raw && is_ascii_digit c && is_fd_redirection (c ∷ cs)
    then (let o = fd_redirection_operator (c ∷ cs) in
        next (redirected (operator o l)) (length o - 1))
    else next (push_char c l) 0

unfoldable pub single_round : Lexer → ℕ → Round
single_round l c =
    if c == 0x27 then next (record (push_raw c l) { state = normal }) 0 else next (push_char c l) 0

-- A backslash in double quotes stays in the text but before `$`, a backtick, `"` and itself.
abbrev pub double_escape : Lexer → List ℕ → Round
double_escape l [] = fail trailing_escape
double_escape l (c ∷ cs) =
    if c == b'$' || c == 0x60 || c == 0x22 || c == 0x5C
    then next (push_char c (push_raw 0x5C l)) 1
    else next (push_char c (push_char 0x5C l)) 1

unfoldable pub double_round : Lexer → ℕ → List ℕ → Round
double_round l c cs =
    if c == 0x22
    then next (record (push_raw c l) { state = normal }) 0
    else if c == 0x5C
    then double_escape l cs
    else if c == b'$' || c == 0x60
    then next (push_char c (expanded l)) 0
    else next (push_char c l) 0

unfoldable pub round : State → Lexer → ℕ → List ℕ → Round
unfolding normal_round single_round double_round
round normal l c cs = normal_round l c cs
round single l c cs = single_round l c
round double l c cs = double_round l c cs

-- What follows the loop.
unfoldable pub finish : State → Lexer → Parsed
unfolding close
finish normal l = ok (Lexer.line (close l))
finish single l = err unclosed_quote
finish double l = err unclosed_quote

unfoldable pub parse_from : ℕ → Lexer → List ℕ → Parsed
unfolding round finish
parse_from ahead l [] = finish l.state l
parse_from (suc ahead) l (c ∷ cs) = parse_from ahead l cs
parse_from zero l (c ∷ cs) = elim (round l.state l c cs) [
  | next l' ahead ↦ parse_from ahead l' cs
  | fail e ↦ err e
]

abbrev pub empty_line : ShellLine
empty_line = record {
  items = [];
  has_pipe = false;
  has_redirection = false;
  has_expansion = false;
  has_background = false;
}

abbrev pub start : Lexer
start = record { state = normal; line = empty_line; words = []; raw = []; text = [] }

unfoldable pub parse : List ℕ → Parsed
unfolding parse_from
parse chars = parse_from 0 start chars

-- `word.find('=')`, the name before it and whether there is one.
unfoldable pub before_equals : List ℕ → Option (List ℕ)
before_equals [] = none
before_equals (c ∷ cs) = elim (c == b'=') [
  | true ↦ some []
  | false ↦ elim (before_equals cs) [ none ↦ none | some name ↦ some (c ∷ name) ]
]

unfoldable pub all_chars : (ℕ → Bool) → List ℕ → Bool
all_chars p [] = true
all_chars p (c ∷ cs) = p c && all_chars p cs

abbrev pub is_name : List ℕ → Bool
is_name [] = false
is_name (c ∷ cs) =
    (c == b'_' || is_ascii_alphabetic c) && all_chars (λ d. d == b'_' || is_ascii_alphanumeric d) cs

unfoldable pub is_env_assignment : List ℕ → Bool
unfolding before_equals all_chars
is_env_assignment word = elim (before_equals word) [ none ↦ false | some name ↦ is_name name ]

unfoldable pub is_plain : ℕ → Bool
is_plain c =
    is_ascii_alphanumeric c
    || c == b'_'
    || c == b'-'
    || c == b'.'
    || c == b'/'
    || c == b':'
    || c == b'@'
    || c == b'%'
    || c == b'+'
    || c == b'='
    || c == b','

unfoldable pub quoted_chars : List ℕ → List ℕ
quoted_chars [] = []
quoted_chars (c ∷ cs) =
    let rest = quoted_chars cs in if c == 0x27 then 0x27 ∷ 0x5C ∷ 0x27 ∷ 0x27 ∷ rest else c ∷ rest

unfoldable pub shell_quote : List ℕ → List ℕ
unfolding all_chars is_plain quoted_chars
shell_quote value =
    if is_empty value
    then 0x27 ∷ 0x27 ∷ []
    else if all_chars is_plain value
    then value
    else 0x27 ∷ (quoted_chars value ++ (0x27 ∷ []))

unfoldable pub render_raw_words : List Word → List ℕ
render_raw_words [] = []
render_raw_words (w ∷ []) = w.raw
render_raw_words (w ∷ x ∷ ws) = w.raw ++ (0x20 ∷ render_raw_words (x ∷ ws))
